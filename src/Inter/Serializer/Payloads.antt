-- ===== src/Inter/Serializer/Payloads.antt =====
-- inter/event_serializer.go: an event with its payload as bytes. The encoding of transactions and of
-- misbehaviour proofs in RLP is a parameter.
pub mod RoundTrip
use go_opera.Base.{
  ℕ, zero, suc, ◌/◌, List, [], ◌∷◌, Bool, true, false, xor, ◌||◌, nat_beq, nat_bne, ltb, length,
}
use go_opera.Base.{if◌then◌else◌, Result, ok, ◌>>=◌, ◌>>◌, fail_if, u64}
use go_opera.Base.{too_large_alloc, non_canonical_encoding, ser_malformed_event}
use go_opera.Inter.Llr.{LlrBlockVotes, LlrEpochVote}
use go_opera.Inter.Mps.{MisbehaviourProof}
use go_opera.Inter.Serializer.{max_msg_size, marshal_block_votes, unmarshal_block_votes}
use go_opera.Inter.Serializer.{marshal_epoch_vote, unmarshal_epoch_vote}
use go_opera.Inter.Serializer.Events.{EventData, marshal_event, unmarshal_event}
use go_opera.Inter.Serializer.Transactions.{TxData, marshal_transaction, unmarshal_transaction}
use go_opera.Utils.Cser.{Writer, Reader, write_u56, read_u56}
use go_opera.Utils.Cser.{write_slice_bytes, read_slice_bytes, write_fixed_bytes, read_fixed_bytes}

-- `rlp.EncodeToBytes` and `rlp.DecodeBytes` of the two lists.
pub record Rlp : Type 0 where
  pub encode_txs : List TxData → Result (List ℕ)
  pub decode_txs : List ℕ → Result (List TxData)
  pub encode_mps : List MisbehaviourProof → Result (List ℕ)
  pub decode_mps : List ℕ → Result (List MisbehaviourProof)

-- `EventPayload` and `MutableEventPayload`
pub record PayloadData : Type 0 where
  pub event : EventData
  pub sig : List ℕ
  pub txs : List TxData
  pub misbehaviour_proofs : List MisbehaviourProof
  pub epoch_vote : LlrEpochVote
  pub block_votes : LlrBlockVotes

unfoldable pub write_rlp : Result (List ℕ) → Writer → Result Writer
write_rlp encoded w = do b ← encoded; write_slice_bytes w b

unfoldable pub read_rlp {ℓ} : {A : Type ℓ} → (List ℕ → Result A) → Reader → Result (A × Reader)
read_rlp decode r = do (b, r') ← read_slice_bytes r max_msg_size; a ← decode b; ok (a, r')

unfoldable pub marshal_tx_list : List TxData → Writer → Result Writer
marshal_tx_list [] w = ok w
marshal_tx_list (tx ∷ txs) w = do w' ← marshal_transaction tx w; marshal_tx_list txs w'

unfoldable pub unmarshal_tx_list : ℕ → Reader → Result (List TxData × Reader)
unmarshal_tx_list zero r = ok ([], r)
unmarshal_tx_list (suc n) r = do
  (tx, r1) ← unmarshal_transaction r
  (txs, r2) ← unmarshal_tx_list n r1
  ok (tx ∷ txs, r2)

unfoldable pub marshal_txs : List TxData → Writer → Result Writer
marshal_txs txs w = do w' ← write_u56 w (u64 (length txs)); marshal_tx_list txs w'

unfoldable pub unmarshal_txs : Reader → Result (List TxData × Reader)
unmarshal_txs r = do
  (size, r1) ← read_u56 r
  fail_if (nat_beq size 0) non_canonical_encoding
  fail_if (ltb (max_msg_size / 64) size) too_large_alloc
  unmarshal_tx_list size r1

-- The transactions: version 0 has them in the form of utils/cser, and newer versions in RLP.
unfoldable pub marshal_payload_txs : Rlp → (version : ℕ) → List TxData → Writer → Result Writer
marshal_payload_txs rlp version txs w =
    if nat_beq version 0 then marshal_txs txs w else write_rlp (rlp.encode_txs txs) w

unfoldable pub unmarshal_payload_txs : Rlp → (version : ℕ) → Reader → Result (List TxData × Reader)
unmarshal_payload_txs rlp version r =
    if nat_beq version 0 then unmarshal_txs r else read_rlp rlp.decode_txs r

-- A part that is written only if the event says that it has it, and is `empty` otherwise.
unfoldable pub marshal_if : Bool → (Writer → Result Writer) → Writer → Result Writer
marshal_if any put w = if any then put w else ok w

unfoldable pub unmarshal_if {ℓ} :
    {A : Type ℓ}
    → Bool
    → (empty : A) → (Reader → Result (A × Reader))
    → Reader
    → Result (A × Reader)
unmarshal_if any empty get r = if any then get r else ok (empty, r)

-- A part that is read, and refused if it is what stands for none.
unfoldable pub unmarshal_part {ℓ} :
    {A : Type ℓ} → (A → Bool) → (Reader → Result (A × Reader)) → Reader → Result (A × Reader)
unmarshal_part is_empty get r = do
  (a, r') ← get r
  fail_if (is_empty a) non_canonical_encoding
  ok (a, r')

abbrev pub no_epoch_vote : LlrEpochVote
no_epoch_vote = record { epoch = 0; vote = 0 }

abbrev pub no_block_votes : LlrBlockVotes
no_block_votes = record { start = 0; epoch = 0; votes = [] }

unfoldable pub is_empty_vote : LlrEpochVote → Bool
is_empty_vote ev = nat_beq ev.epoch 0

unfoldable pub is_empty_votes : LlrBlockVotes → Bool
is_empty_votes bvs = nat_beq (length bvs.votes) 0 || (nat_beq bvs.start 0 || nat_beq bvs.epoch 0)

-- The flags of the event are not what its payload has.
unfoldable pub is_malformed : PayloadData → Bool
is_malformed p =
    xor p.event.any_txs (nat_bne (length p.txs) 0)
    || (xor p.event.any_misbehaviour_proofs (nat_bne (length p.misbehaviour_proofs) 0)
        || (xor p.event.any_epoch_vote (nat_bne p.epoch_vote.epoch 0)
            || xor p.event.any_block_votes (nat_bne (length p.block_votes.votes) 0)))

unfoldable pub marshal_payload : Rlp → PayloadData → Writer → Result Writer
marshal_payload rlp p w = do
  fail_if (is_malformed p) ser_malformed_event
  w1 ← marshal_event p.event w
  w2 ← write_fixed_bytes w1 p.sig
  w3 ← marshal_if p.event.any_txs (marshal_payload_txs rlp p.event.version p.txs) w2
  w4 ←
      marshal_if p.event.any_misbehaviour_proofs (write_rlp (rlp.encode_mps p.misbehaviour_proofs))
        w3
  w5 ← marshal_if p.event.any_epoch_vote (marshal_epoch_vote p.epoch_vote) w4
  marshal_if p.event.any_block_votes (marshal_block_votes p.block_votes) w5

unfoldable pub unmarshal_payload : Rlp → (ℕ → ℕ) → Reader → Result (PayloadData × Reader)
unmarshal_payload rlp empty_payload_hash r = do
  (e, r1) ← unmarshal_event empty_payload_hash r
  (sig, r2) ← read_fixed_bytes r1 64
  (txs, r3) ← unmarshal_if e.any_txs [] (unmarshal_payload_txs rlp e.version) r2
  (mps, r4) ← unmarshal_if e.any_misbehaviour_proofs [] (read_rlp rlp.decode_mps) r3
  (ev, r5) ←
      unmarshal_if e.any_epoch_vote no_epoch_vote
        (unmarshal_part is_empty_vote unmarshal_epoch_vote) r4
  (bvs, r6) ←
      unmarshal_if e.any_block_votes no_block_votes
        (unmarshal_part is_empty_votes unmarshal_block_votes) r5
  ok (
    record {
      event = e;
      sig = sig;
      txs = txs;
      misbehaviour_proofs = mps;
      epoch_vote = ev;
      block_votes = bvs;
    },
    r6,
  )
