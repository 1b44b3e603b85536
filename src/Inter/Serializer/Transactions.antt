-- ===== src/Inter/Serializer/Transactions.antt =====
-- inter/transaction_serializer.go: the transactions of old events as bytes. A transaction is the
-- data that go-ethereum keeps for its type; a field that the type does not have is 0 or empty here.
pub mod Parts
pub mod RoundTrip
use go_opera.Base.{
  ℕ, zero, suc, ◌+◌, ◌*◌, ◌/◌, ◌≤◌, List, [], ◌∷◌, ◌++◌, Bool, true, false, ◌&&◌, ◌||◌, Option,
  some, none, map,
}
use go_opera.Base.{
  if◌then◌else◌, leb, ltb, nat_beq, length, u32, take, drop, ℤ, pos, Result, ok, err, ◌>>=◌, ◌>>◌,
  fail_if, is_some,
}
use go_opera.Base.{too_large_alloc, unknown_tx_type, too_low_gas_limit}
use go_opera.Inter.Serializer.{max_msg_size, write_hashes, read_hashes}
use go_opera.Utils.Bits
use go_opera.Utils.Cser.{
  Writer, Reader, read_u8, write_u8, read_u32, write_u32, read_u64, write_u64, read_bool,
  write_bool,
}
use go_opera.Utils.Cser.{read_slice_bytes, write_slice_bytes, read_fixed_bytes, write_fixed_bytes}
use go_opera.Utils.Cser.Arrays.{write_array, read_array}
use go_opera.Utils.Cser.BigInts.{be_bytes, set_bytes, padded_bytes, write_big_int, read_big_int}

-- `types.LegacyTxType`, `types.AccessListTxType`, `types.DynamicFeeTxType`
abbrev pub legacy_tx_type : ℕ
legacy_tx_type = 0

abbrev pub access_list_tx_type : ℕ
access_list_tx_type = 1

abbrev pub dynamic_fee_tx_type : ℕ
dynamic_fee_tx_type = 2

-- `types.AccessTuple`
pub record AccessTuple : Type 0 where
  pub address : ℕ
  pub storage_keys : List ℕ

pub record TxData : Type 0 where
  pub tx_type : ℕ
  pub nonce : ℕ
  pub gas : ℕ
  pub gas_price : ℤ
  pub gas_tip_cap : ℤ
  pub gas_fee_cap : ℤ
  pub value : ℤ
  pub to : Option ℕ
  pub data_bytes : List ℕ
  pub v : ℤ
  pub r : ℕ
  pub s : ℕ
  pub chain_id : ℤ
  pub access_list : List AccessTuple

-- `encodeSig`, with the absolute values of `r` and `s`
unfoldable pub encode_sig : (r s : ℕ) → List ℕ
encode_sig r s = take 32 (padded_bytes (be_bytes r) 32) ++ take 32 (padded_bytes (be_bytes s) 32)

unfoldable pub decode_sig : List ℕ → ℕ × ℕ
decode_sig sig = (set_bytes (take 32 sig) 0, set_bytes (take 32 (drop 32 sig)) 0)

-- The marker of a type that is not legacy, and the type.
unfoldable pub marshal_type : (tx_type gas : ℕ) → Writer → Result Writer
marshal_type tx_type gas w =
    if nat_beq tx_type legacy_tx_type
    then if leb gas 255 then err too_low_gas_limit else ok w
    else (do bits ← Bits.write w.bits_w 6 0; write_u8 (record w { bits_w = bits }) tx_type)

unfoldable pub unmarshal_type : Reader → Result (ℕ × Reader)
unmarshal_type r = do
  marker ← Bits.view r.bits_r 6
  if nat_beq marker 0
      then (do (_, bits) ← Bits.read r.bits_r 6; read_u8 (record r { bits_r = bits }))
      else ok (legacy_tx_type, r)

-- The tip and fee caps.
unfoldable pub marshal_caps : TxData → Writer → Result Writer
marshal_caps tx w = do w' ← write_big_int w tx.gas_tip_cap; write_big_int w' tx.gas_fee_cap

-- The price, the tip cap and the fee cap; what is not read is nil, here 0.
unfoldable pub unmarshal_caps : Reader → Result ((ℤ × ℤ × ℤ) × Reader)
unmarshal_caps r = do
  (tip, r1) ← read_big_int r
  (fee, r2) ← read_big_int r1
  ok ((pos 0, tip, fee), r2)

unfoldable pub marshal_prices : TxData → Writer → Result Writer
marshal_prices tx w =
    if nat_beq tx.tx_type dynamic_fee_tx_type
    then marshal_caps tx w
    else write_big_int w tx.gas_price

unfoldable pub unmarshal_prices : ℕ → Reader → Result ((ℤ × ℤ × ℤ) × Reader)
unmarshal_prices tx_type r =
    if nat_beq tx_type dynamic_fee_tx_type
    then unmarshal_caps r
    else (do (price, r1) ← read_big_int r; ok ((price, pos 0, pos 0), r1))

unfoldable pub marshal_to : Option ℕ → Writer → Result Writer
marshal_to none w = write_bool w false
marshal_to (some a) w = do w' ← write_bool w true; write_array 20 w' a

unfoldable pub unmarshal_to : Reader → Result (Option ℕ × Reader)
unmarshal_to r = do
  (exists, r') ← read_bool r
  if exists then (do (a, r2) ← read_array 20 r'; ok (some a, r2)) else ok (none, r')

unfoldable pub marshal_access_list : List AccessTuple → Writer → Result Writer
marshal_access_list [] w = ok w
marshal_access_list (t ∷ ts) w = do
  w1 ← write_array 20 w t.address
  w2 ← write_u32 w1 (u32 (length t.storage_keys))
  w3 ← write_hashes w2 t.storage_keys
  marshal_access_list ts w3

unfoldable pub unmarshal_access_list : ℕ → Reader → Result (List AccessTuple × Reader)
unmarshal_access_list zero r = ok ([], r)
unmarshal_access_list (suc n) r = do
  (address, r1) ← read_array 20 r
  (keys_len, r2) ← read_u32 r1
  fail_if (ltb (max_msg_size / 32) keys_len) too_large_alloc
  (keys, r3) ← read_hashes keys_len r2
  (ts, r4) ← unmarshal_access_list n r3
  ok (record { address = address; storage_keys = keys } ∷ ts, r4)

-- The chain and the access list of the newer types.
unfoldable pub marshal_chain : TxData → Writer → Result Writer
marshal_chain tx w = do
  w1 ← write_big_int w tx.chain_id
  w2 ← write_u32 w1 (u32 (length tx.access_list))
  marshal_access_list tx.access_list w2

unfoldable pub unmarshal_chain : Reader → Result ((ℤ × List AccessTuple) × Reader)
unmarshal_chain r = do
  (chain_id, r1) ← read_big_int r
  (len, r2) ← read_u32 r1
  fail_if (ltb (max_msg_size / 24) len) too_large_alloc
  (list, r3) ← unmarshal_access_list len r2
  ok ((chain_id, list), r3)

abbrev pub has_chain : ℕ → Bool
has_chain tx_type = nat_beq tx_type access_list_tx_type || nat_beq tx_type dynamic_fee_tx_type

unfoldable pub marshal_extension : TxData → Writer → Result Writer
marshal_extension tx w = if has_chain tx.tx_type then marshal_chain tx w else ok w

unfoldable pub unmarshal_extension : ℕ → Reader → Result ((ℤ × List AccessTuple) × Reader)
unmarshal_extension tx_type r =
    if nat_beq tx_type legacy_tx_type
    then ok ((pos 0, []), r)
    else if has_chain tx_type
    then unmarshal_chain r
    else err unknown_tx_type

-- What follows the nonce and the gas limit.
unfoldable pub marshal_tx_fields : TxData → Writer → Result Writer
marshal_tx_fields tx w3 = do
  w4 ← marshal_prices tx w3
  w5 ← write_big_int w4 tx.value
  w6 ← marshal_to tx.to w5
  w7 ← write_slice_bytes w6 tx.data_bytes
  w8 ← write_big_int w7 tx.v
  w9 ← write_fixed_bytes w8 (encode_sig tx.r tx.s)
  marshal_extension tx w9

unfoldable pub unmarshal_tx_fields : (tx_type nonce gas : ℕ) → Reader → Result (TxData × Reader)
unmarshal_tx_fields tx_type nonce gas r3 = do
  (prices, r4) ← unmarshal_prices tx_type r3
  (amount, r5) ← read_big_int r4
  (to, r6) ← unmarshal_to r5
  (input, r7) ← read_slice_bytes r6 max_msg_size
  (v, r8) ← read_big_int r7
  (sig, r9) ← read_fixed_bytes r8 64
  (extension, r10) ← unmarshal_extension tx_type r9
  ok (
    record {
      tx_type = tx_type;
      nonce = nonce;
      gas = gas;
      gas_price = prices.0;
      gas_tip_cap = prices.1;
      gas_fee_cap = prices.2;
      value = amount;
      to = to;
      data_bytes = input;
      v = v;
      r = (decode_sig sig).0;
      s = (decode_sig sig).1;
      chain_id = extension.0;
      access_list = extension.1;
    },
    r10,
  )

unfoldable pub marshal_transaction : TxData → Writer → Result Writer
marshal_transaction tx w = do
  fail_if (ltb dynamic_fee_tx_type tx.tx_type) unknown_tx_type
  w1 ← marshal_type tx.tx_type tx.gas w
  w2 ← write_u64 w1 tx.nonce
  w3 ← write_u64 w2 tx.gas
  marshal_tx_fields tx w3

unfoldable pub unmarshal_transaction : Reader → Result (TxData × Reader)
unmarshal_transaction r = do
  (tx_type, r1) ← unmarshal_type r
  (nonce, r2) ← read_u64 r1
  (gas, r3) ← read_u64 r2
  unmarshal_tx_fields tx_type nonce gas r3
