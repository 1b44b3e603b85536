-- ===== src/Scenarios/Cser.antt =====
-- Witnesses and tests of the compact serialization.
use go_opera.Base.{ℕ, ◌<◌, ◌≡◌, refl, arith, ◌+◌, ap, List, [], ◌∷◌, All, true, false, some, length}
use go_opera.Base.{◌≢◌, err, out_of_fuel}
use go_opera.Base.{Result, ok, some-injective, take, pos, replicate}
use go_opera.Inter.Llr.{LlrBlockVotes}
use mathlib.Core.Bool.{xor}
use go_opera.Inter.Serializer.{marshal_block_votes, unmarshal_block_votes, write_hashes}
use go_opera.Inter.Serializer.Binary.{
  HasSlices, unmarshal_payload-marshal_payload, unmarshal_transaction-marshal_transaction,
  unmarshal_event-marshal_event, unmarshal_block_votes-marshal_block_votes,
}
use go_opera.Inter.Serializer.Events.{EventData, marshal_event, marshal_fields, unmarshal_event}
use go_opera.Inter.Serializer.Events.{
  marshal_version, marshal_net_fork_id, marshal_parents, marshal_optional_hash, marshal_flag,
  marshal_payload_hash,
}
use go_opera.Inter.Serializer.Events.RoundTrip.{IsEvent}
use go_opera.Inter.Serializer.Votes.{IsBlockVotes}
use go_opera.Inter.Serializer.Payloads.{
  Rlp, PayloadData, marshal_payload, unmarshal_payload, is_malformed, marshal_if,
  marshal_payload_txs, write_rlp, no_epoch_vote,
}
use go_opera.Inter.Serializer.Payloads.RoundTrip.{IsPayload}
use go_opera.Inter.Serializer.Transactions.{
  TxData, marshal_transaction, unmarshal_transaction, marshal_type, marshal_tx_fields,
  marshal_prices, marshal_to, marshal_extension, encode_sig,
}
use go_opera.Inter.Serializer.Transactions.RoundTrip.{IsTransaction}
use go_opera.Utils.Cser.BigInts.{write_big_int, be_bytes, digits_fuel, padded_bytes}
use go_opera.Utils.Cser.BigInts.RoundTrip.{IsBigInt}
use go_opera.Utils.Bits
use go_opera.Utils.Bits.RoundTrip.{
  read_fields-write_fields, write_fields, read_fields, Field, IsField,
}
use go_opera.Utils.Cser.{
  Writer, new_writer, read_compact_fuel, read_uint64_compact, write_uint64_compact,
}
use go_opera.Utils.Cser.{
  write_u8, write_u16, write_u32, write_u64, write_i64, write_u64_bits, write_bool,
  write_fixed_bytes, write_slice_bytes, write_u56, write_uint64_bit_compact, bit_compact_fuel,
}
use go_opera.Utils.Cser.{read_u56, read_u64_bits, read_uint64_bit_compact, join_bytes}
use go_opera.Utils.Cser.Arrays.{write_array, array_bytes}
use go_opera.Utils.Cser.Binary.{marshal_binary_adapter, unmarshal_binary_adapter}
use go_opera.Utils.Cser.Canonical.{
  read_compact_fuel_enough, write_uint64_compact-read_uint64_compact,
}
use go_opera.Utils.Fast

-- What the array of an encoding's slice holds behind it.
abbrev spare_bytes : List ℕ
spare_bytes = 4 ∷ 5 ∷ []

abbrev sample_votes : LlrBlockVotes
sample_votes = record { start = 300; epoch = 7; votes = 5 ∷ 70000 ∷ [] }

-- The bytes of the bit array that an encoder makes.
abbrev bit_bytes : Result Writer → ℕ
bit_bytes (ok w) = length w.bits_w.bytes
bit_bytes _ = 0

sample_votes_bits : bit_bytes (marshal_block_votes sample_votes new_writer) ≡ 1
unfolding marshal_block_votes write_hashes write_u64 write_u32 write_u64_bits
    write_uint64_bit_compact bit_compact_fuel write_array array_bytes write_fixed_bytes Bits.write
sample_votes_bits = refl

sample_votes-HasSlices : HasSlices (marshal_block_votes sample_votes)
sample_votes-HasSlices w run = omega (arith, sample_votes_bits, ap bit_bytes run)

sample_votes-IsBlockVotes : IsBlockVotes sample_votes
sample_votes-IsBlockVotes = record {
  start_lt = omega arith;
  epoch_lt = omega arith;
  votes_le = omega arith;
  votes_IsHash = (omega arith, (omega arith, tt));
}

unmarshal_block_votes-marshal_block_votes_example :
    (raw : List ℕ) × (marshal_binary_adapter (marshal_block_votes sample_votes) ≡ ok raw)
    × (unmarshal_binary_adapter raw spare_bytes unmarshal_block_votes ≡ ok sample_votes)
unmarshal_block_votes-marshal_block_votes_example =
    unmarshal_block_votes-marshal_block_votes sample_votes spare_bytes sample_votes-IsBlockVotes
      sample_votes-HasSlices

abbrev sample_event : EventData
sample_event = record {
  version = 1;
  net_fork_id = 3;
  epoch = 9;
  lamport = 20;
  creator = 2;
  seq = 4;
  frame = 3;
  creation_time = 1000;
  median_time = 1200;
  gas_power_used = 70;
  gas_power_left = record { short = 500; long = 90000 };
  parents = record { epoch = 9; lamport = 19; tail = 12345 } ∷ [];
  prev_epoch_hash = some 77;
  any_txs = true;
  any_misbehaviour_proofs = false;
  any_epoch_vote = false;
  any_block_votes = true;
  payload_hash = 88;
  extra = 1 ∷ 2 ∷ [];
}

sample_event_bits : bit_bytes (marshal_event sample_event new_writer) ≡ 6
unfolding marshal_event marshal_fields marshal_version marshal_net_fork_id marshal_parents
    marshal_optional_hash marshal_flag marshal_payload_hash write_u8 write_u16 write_u32 write_u64
    write_i64 write_u56 write_bool write_slice_bytes write_u64_bits write_uint64_bit_compact
    bit_compact_fuel write_array array_bytes write_fixed_bytes Bits.write
sample_event_bits = refl

sample_event-HasSlices : HasSlices (marshal_event sample_event)
sample_event-HasSlices w run = omega (arith, sample_event_bits, ap bit_bytes run)

-- The empty payload of version 0 and of version 1.
abbrev empty_hash : ℕ → ℕ
empty_hash version = version + 100

sample_event-IsEvent : IsEvent empty_hash sample_event
sample_event-IsEvent = record {
  version_le = omega arith;
  legacy = λ old. absurd (omega arith);
  net_fork_id_lt = omega arith;
  epoch_lt = omega arith;
  lamport_lt = omega arith;
  creator_lt = omega arith;
  seq_lt = omega arith;
  frame_lt = omega arith;
  creation_time_lt = omega arith;
  median_time_lt = omega arith;
  gas_power_used_lt = omega arith;
  short_lt = omega arith;
  long_lt = omega arith;
  parents_le = omega arith;
  parents_IsParent =
      (record { same_epoch = refl; lamport_le = omega arith; tail_lt = omega arith }, tt);
  prev_IsHash = λ h e. omega (arith, some-injective e);
  payload_IsHash = omega arith;
  payload_differs = λ has e. absurd (omega (arith, e));
  payload_same = λ has. absurd (cc);
  extra_le = omega arith;
}

unmarshal_event-marshal_event_example :
    (raw : List ℕ) × (marshal_binary_adapter (marshal_event sample_event) ≡ ok raw)
    × (unmarshal_binary_adapter raw spare_bytes (unmarshal_event empty_hash) ≡ ok sample_event)
unmarshal_event-marshal_event_example =
    unmarshal_event-marshal_event empty_hash sample_event spare_bytes sample_event-IsEvent
      sample_event-HasSlices

abbrev sample_fields : List Field
sample_fields = (2, 3) ∷ (8, 200) ∷ (16, 65535) ∷ []

sample_fields-IsField : All IsField sample_fields
sample_fields-IsField = (
  (omega arith, omega arith, omega arith),
  ((omega arith, omega arith, omega arith), ((omega arith, omega arith, omega arith), tt)),
)

read_fields-write_fields_example :
    (w : Bits.Writer) × (write_fields Bits.new_writer sample_fields ≡ ok w)
    × ((r : Bits.Reader) × (read_fields (Bits.new_reader w.bytes) (2 ∷ 8 ∷ 16 ∷ [])
          ≡ ok (3 ∷ 200 ∷ 65535 ∷ [], r))
        × (Bits.non_read_bits r < 8)
        × ((r' : Bits.Reader) × (Bits.read r (Bits.non_read_bits r) ≡ ok (0, r'))))
read_fields-write_fields_example = read_fields-write_fields sample_fields sample_fields-IsField

-- The number 300 and one more byte.
abbrev three_hundred : List ℕ
three_hundred = 44 ∷ 130 ∷ 7 ∷ []

read_compact_fuel_enough_example :
    (read_compact_fuel 4 (Fast.new_reader three_hundred) 0 0 ≢ err out_of_fuel)
    × (read_compact_fuel 4 (Fast.new_reader three_hundred) 0 0
        ≡ read_compact_fuel 9 (Fast.new_reader three_hundred) 0 0)
read_compact_fuel_enough_example =
    read_compact_fuel_enough 4 9 (Fast.new_reader three_hundred) 0 0 (omega arith) (omega arith)

three_hundred_read :
    read_uint64_compact (Fast.new_reader three_hundred)
    ≡ ok (300, record { buf = three_hundred; spare = []; offset = 2 })
unfolding read_uint64_compact read_compact_fuel Fast.read_byte
three_hundred_read = refl

write_uint64_compact-read_uint64_compact_example :
    write_uint64_compact [] 300 ≡ ok (take 2 three_hundred)
write_uint64_compact-read_uint64_compact_example =
    write_uint64_compact-read_uint64_compact three_hundred 300
      (record { buf = three_hundred; spare = []; offset = 2 })
      (omega arith, (omega arith, (omega arith, tt))) (omega arith) three_hundred_read

-- A length of zero is read from two encodings.
two_empty_lengths :
    (read_u56 (record { bits_r = Bits.new_reader (0 ∷ []); bytes_r = Fast.new_reader [] })
      ≡ ok (
        0,
        record {
          bits_r = record { bytes = 0 ∷ []; byte_offset = 0; bit_offset = 3 };
          bytes_r = record { buf = []; spare = []; offset = 0 };
        },
      ))
    × (read_u56 (record { bits_r = Bits.new_reader (1 ∷ []); bytes_r = Fast.new_reader (0 ∷ []) })
        ≡ ok (
          0,
          record {
            bits_r = record { bytes = 1 ∷ []; byte_offset = 0; bit_offset = 3 };
            bytes_r = record { buf = 0 ∷ []; spare = []; offset = 1 };
          },
        ))
unfolding read_u56 read_u64_bits Bits.read read_uint64_bit_compact join_bytes Fast.read
two_empty_lengths = (refl, refl)

abbrev sample_tx : TxData
sample_tx = record {
  tx_type = 0;
  nonce = 9;
  gas = 21000;
  gas_price = pos 1000;
  gas_tip_cap = pos 0;
  gas_fee_cap = pos 0;
  value = pos 5;
  to = some 77;
  data_bytes = 1 ∷ [];
  v = pos 27;
  r = 300;
  s = 4;
  chain_id = pos 0;
  access_list = [];
}

sample_tx_bits : bit_bytes (marshal_transaction sample_tx new_writer) ≡ 3
unfolding marshal_transaction marshal_type marshal_tx_fields marshal_prices marshal_to
    marshal_extension write_big_int be_bytes digits_fuel encode_sig padded_bytes write_u64 write_u56
    write_bool write_slice_bytes write_u64_bits write_uint64_bit_compact bit_compact_fuel
    write_array array_bytes write_fixed_bytes Bits.write
sample_tx_bits = refl

sample_tx-HasSlices : HasSlices (marshal_transaction sample_tx)
sample_tx-HasSlices w run = omega (arith, sample_tx_bits, ap bit_bytes run)

sample_tx-IsTransaction : IsTransaction sample_tx
unfolding IsBigInt
sample_tx-IsTransaction = record {
  legacy_gas = λ old. omega arith;
  nonce_lt = omega arith;
  gas_lt = omega arith;
  priced = record {
    price = omega arith;
    tip_cap = omega arith;
    fee_cap = omega arith;
    dynamic = λ e. absurd (omega arith);
    plain = λ e. (refl, refl);
  };
  value_IsBigInt = omega arith;
  to_lt = λ a e. omega (arith, some-injective e);
  data_le = omega arith;
  v_IsBigInt = omega arith;
  r_lt = omega arith;
  s_lt = omega arith;
  extended = record {
    tx_type_le = omega arith;
    legacy = λ e. (refl, refl);
    chain_id_IsBigInt = omega arith;
    list_le = omega arith;
    list_IsTuple = tt;
  };
}

unmarshal_transaction-marshal_transaction_example :
    (raw : List ℕ) × (marshal_binary_adapter (marshal_transaction sample_tx) ≡ ok raw)
    × (unmarshal_binary_adapter raw spare_bytes unmarshal_transaction ≡ ok sample_tx)
unmarshal_transaction-marshal_transaction_example =
    unmarshal_transaction-marshal_transaction sample_tx spare_bytes sample_tx-IsTransaction
      sample_tx-HasSlices

-- Lists of the sample transaction as their length, and no misbehaviour proofs.
unfoldable sample_rlp : Rlp
sample_rlp = record {
  encode_txs = λ txs. ok (length txs ∷ []);
  decode_txs = λ b. ok (replicate (length_byte b) sample_tx);
  encode_mps = λ mps. ok [];
  decode_mps = λ b. ok [];
}
  where
    length_byte : List ℕ → ℕ
    length_byte [] = 0
    length_byte (b ∷ bs) = b

abbrev sample_payload : PayloadData
sample_payload = record {
  event = sample_event;
  sig = replicate 64 9;
  txs = sample_tx ∷ [];
  misbehaviour_proofs = [];
  epoch_vote = no_epoch_vote;
  block_votes = sample_votes;
}

sample_payload_bits : bit_bytes (marshal_payload sample_rlp sample_payload new_writer) ≡ 7
unfolding xor marshal_payload is_malformed marshal_if marshal_payload_txs write_rlp sample_rlp
    marshal_block_votes marshal_event marshal_fields marshal_version marshal_net_fork_id
    marshal_parents marshal_optional_hash marshal_flag marshal_payload_hash write_u8 write_u16
    write_u32 write_u64 write_i64 write_u56 write_bool write_slice_bytes write_u64_bits
    write_uint64_bit_compact bit_compact_fuel write_hashes write_array array_bytes write_fixed_bytes
    Bits.write
sample_payload_bits = refl

sample_payload-HasSlices : HasSlices (marshal_payload sample_rlp sample_payload)
sample_payload-HasSlices w run = omega (arith, sample_payload_bits, ap bit_bytes run)

sample_payload-IsPayload : IsPayload sample_rlp empty_hash sample_payload
unfolding sample_rlp
sample_payload-IsPayload = record {
  event_IsEvent = sample_event-IsEvent;
  length-sig = refl;
  any_txs_eq = refl;
  any_mps_eq = refl;
  any_epoch_vote_eq = refl;
  any_block_votes_eq = refl;
  legacy_txs = λ old. absurd (omega arith);
  rlp_txs =
      λ new. record { encoded = 1 ∷ []; encodes = refl; encoded_le = omega arith; decodes = refl };
  rlp_mps =
      λ any. record { encoded = []; encodes = refl; encoded_le = omega arith; decodes = refl };
  vote_epoch_lt = omega arith;
  vote_IsHash = omega arith;
  no_vote = λ e. refl;
  votes_IsBlockVotes = sample_votes-IsBlockVotes;
  votes_located = λ some_votes. (omega arith, omega arith);
  no_votes = λ e. absurd (omega arith);
}

unmarshal_payload-marshal_payload_example :
    (raw : List ℕ) × (marshal_binary_adapter (marshal_payload sample_rlp sample_payload) ≡ ok raw)
    × (unmarshal_binary_adapter raw spare_bytes (unmarshal_payload sample_rlp empty_hash)
        ≡ ok sample_payload)
unmarshal_payload-marshal_payload_example =
    unmarshal_payload-marshal_payload sample_rlp empty_hash sample_payload spare_bytes
      sample_payload-IsPayload sample_payload-HasSlices
