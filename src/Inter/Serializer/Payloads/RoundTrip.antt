-- ===== src/Inter/Serializer/Payloads/RoundTrip.antt =====
-- inter/event_serializer.go: an event with its payload is read back.
use go_opera.Base.{ℕ, ◌/◌, ◌^◌, ◌≤◌, ◌<◌, ◌≡◌, ◌≢◌, refl, sym, arith, ap, ◌∙◌}
use go_opera.Base.{List, [], ◌∷◌, Bool, true, false, ◌||◌, All, length, nat_beq, nat_bne, ltb, u64}
use go_opera.Base.{Result, ok, >>=-ok, inl, inr, Bool-cases}
use go_opera.Inter.Serializer.{max_msg_size, marshal_block_votes, unmarshal_block_votes}
use go_opera.Inter.Serializer.{marshal_epoch_vote, unmarshal_epoch_vote}
use go_opera.Inter.Serializer.Events.RoundTrip.{IsEvent, event-Coded}
use go_opera.Inter.Serializer.Payloads.{
  Rlp, PayloadData, write_rlp, read_rlp, marshal_tx_list, unmarshal_tx_list, marshal_txs,
  unmarshal_txs, marshal_payload_txs, unmarshal_payload_txs, marshal_if, unmarshal_if,
  unmarshal_part,
}
use go_opera.Inter.Serializer.Payloads.{
  no_epoch_vote, no_block_votes, is_empty_vote, is_empty_votes, is_malformed, marshal_payload,
  unmarshal_payload,
}
use go_opera.Inter.Serializer.Transactions.{TxData}
use go_opera.Inter.Serializer.Transactions.RoundTrip.{IsTransaction, transaction-Coded}
use go_opera.Inter.Serializer.Votes.{IsHash, IsBlockVotes, block_votes-Coded, epoch_vote-Coded}
use mathlib.Core.Bool.{xor}
use go_opera.Utils.Cser.{Writer, Reader, write_u56, read_u56}
use go_opera.Utils.Cser.Codec.{Coded, Coded-as, Coded-check, Coded-then, Coded-post, Coded-pure}
use go_opera.Utils.Cser.Fields.{u56-Coded, fixed_bytes-Coded, slice_bytes-Coded}

-- RLP encodes a value in as many bytes as a message has, and decodes it to the same.
pub record IsEncoded {ℓ} {A : Type ℓ} (encode : A → Result (List ℕ)) (decode : List ℕ → Result A)
    (a : A) : Type ℓ where
  pub encoded : List ℕ
  pub encodes : encode a ≡ ok encoded
  pub encoded_le : length encoded ≤ max_msg_size
  pub decodes : decode encoded ≡ ok a

rlp-Coded {ℓ} :
    {A : Type ℓ} (encode : A → Result (List ℕ)) (decode : List ℕ → Result A) (a : A)
    → IsEncoded encode decode a
    → Coded (write_rlp (encode a)) (read_rlp decode) a
unfolding write_rlp read_rlp
rlp-Coded encode decode a v =
    Coded-as (λ w. >>=-ok _ v.encodes) (λ r. refl)
      (Coded-post _
        (slice_bytes-Coded v.encoded max_msg_size v.encoded_le (omega (arith, v.encoded_le)))
        (λ r. >>=-ok _ v.decodes))

tx_list-Coded :
    (txs : List TxData)
    → All IsTransaction txs
    → Coded (marshal_tx_list txs) (unmarshal_tx_list (length txs)) txs
unfolding marshal_tx_list unmarshal_tx_list
tx_list-Coded [] all = Coded-pure []
tx_list-Coded (tx ∷ txs) (v, all) =
    Coded-then _ (transaction-Coded tx v) (Coded-post _ (tx_list-Coded txs all) (λ r. refl))

txs-Coded :
    (txs : List TxData)
    → nat_bne (length txs) 0 ≡ true
    → length txs ≤ max_msg_size / 64
    → All IsTransaction txs
    → Coded (marshal_txs txs) unmarshal_txs txs
unfolding marshal_txs unmarshal_txs
txs-Coded txs some_txs few all =
    let k = length txs in
    let same : u64 k ≡ k = omega arith in
    let present : nat_beq k 0 ≡ false = ground arith in
    let allowed : ltb (max_msg_size / 64) k ≡ false = ground arith in
    let count : Coded (λ w. write_u56 w (u64 k)) read_u56 k = rw same (u56-Coded k (omega arith)) in
    Coded-then _ count (Coded-check _ _ present (Coded-check _ _ allowed (tx_list-Coded txs all)))

-- A part that is there if and only if the event says so.
if-Coded {ℓ} :
    {A : Type ℓ} (any : Bool) (empty : A) (put : Writer → Result Writer)
    (get : Reader → Result (A × Reader)) (a : A)
    → (any ≡ true → Coded put get a)
    → (any ≡ false → a ≡ empty)
    → Coded (marshal_if any put) (unmarshal_if any empty get) a
unfolding marshal_if unmarshal_if
if-Coded true empty put get a present absent = Coded-as (λ w. refl) (λ r. refl) (present refl)
if-Coded false empty put get a present absent =
    Coded-as (λ w. refl) (λ r. ap (λ t. ok (t, r)) (sym (absent refl))) (Coded-pure a)

part-Coded {ℓ} :
    {A : Type ℓ} (is_empty : A → Bool) (put : Writer → Result Writer)
    (get : Reader → Result (A × Reader)) (a : A)
    → is_empty a ≡ false
    → Coded put get a
    → Coded put (unmarshal_part is_empty get) a
unfolding unmarshal_part
part-Coded is_empty put get a filled c = Coded-post _ c (λ r. rw filled refl)

no_items : {A : Type 0} (xs : List A) → nat_bne (length xs) 0 ≡ false → xs ≡ []
no_items [] e = refl
no_items (x ∷ xs) e = absurd (ground arith)

module _ (rlp : Rlp) (empty_payload_hash : ℕ → ℕ) where
  -- An event with a payload that can be written.
  pub record IsPayload (p : PayloadData) : Type 0 where
    pub event_IsEvent : IsEvent empty_payload_hash p.event
    pub length-sig : length p.sig ≡ 64
    pub any_txs_eq : p.event.any_txs ≡ nat_bne (length p.txs) 0
    pub any_mps_eq : p.event.any_misbehaviour_proofs ≡ nat_bne (length p.misbehaviour_proofs) 0
    pub any_epoch_vote_eq : p.event.any_epoch_vote ≡ nat_bne p.epoch_vote.epoch 0
    pub any_block_votes_eq : p.event.any_block_votes ≡ nat_bne (length p.block_votes.votes) 0
    pub legacy_txs :
        p.event.version ≡ 0 → (length p.txs ≤ max_msg_size / 64) × All IsTransaction p.txs
    pub rlp_txs : p.event.version ≢ 0 → IsEncoded rlp.encode_txs rlp.decode_txs p.txs
    pub rlp_mps :
        p.event.any_misbehaviour_proofs ≡ true
        → IsEncoded rlp.encode_mps rlp.decode_mps p.misbehaviour_proofs
    pub vote_epoch_lt : p.epoch_vote.epoch < 2 ^ 32
    pub vote_IsHash : IsHash p.epoch_vote.vote
    pub no_vote : p.epoch_vote.epoch ≡ 0 → p.epoch_vote ≡ no_epoch_vote
    pub votes_IsBlockVotes : IsBlockVotes p.block_votes
    pub votes_located :
        length p.block_votes.votes ≢ 0 → (p.block_votes.start ≢ 0) × (p.block_votes.epoch ≢ 0)
    pub no_votes : length p.block_votes.votes ≡ 0 → p.block_votes ≡ no_block_votes

  payload_txs-Coded :
      (p : PayloadData)
      → IsPayload p
      → p.event.any_txs ≡ true
      → Coded
          (marshal_payload_txs rlp p.event.version p.txs)
          (unmarshal_payload_txs rlp p.event.version)
          p.txs
  unfolding marshal_payload_txs unmarshal_payload_txs
  payload_txs-Coded p v any = elim (Bool-cases (nat_beq p.event.version 0)) [
    | inl old ↦
        let (few, all) = v.legacy_txs (ground arith) in
        Coded-as (λ w. rw old refl) (λ r. rw old refl)
          (txs-Coded p.txs (sym v.any_txs_eq ∙ any) few all)
    | inr new ↦
        Coded-as (λ w. rw new refl) (λ r. rw new refl)
          (rlp-Coded rlp.encode_txs rlp.decode_txs p.txs (v.rlp_txs (ground arith)))
  ]

  payload_vote-Coded :
      (p : PayloadData)
      → IsPayload p
      → Coded
          (marshal_if p.event.any_epoch_vote (marshal_epoch_vote p.epoch_vote))
          (unmarshal_if p.event.any_epoch_vote no_epoch_vote
            (unmarshal_part is_empty_vote unmarshal_epoch_vote))
          p.epoch_vote
  unfolding is_empty_vote
  payload_vote-Coded p v =
      let flag = v.any_epoch_vote_eq in
      if-Coded _ _ _ _ p.epoch_vote
        (λ any.
          part-Coded _ _ _ p.epoch_vote (ground (arith, flag, any))
            (epoch_vote-Coded p.epoch_vote v.vote_epoch_lt v.vote_IsHash))
        (λ none_there. v.no_vote (ground (arith, flag, none_there)))

  payload_votes-Coded :
      (p : PayloadData)
      → IsPayload p
      → Coded
          (marshal_if p.event.any_block_votes (marshal_block_votes p.block_votes))
          (unmarshal_if p.event.any_block_votes no_block_votes
            (unmarshal_part is_empty_votes unmarshal_block_votes))
          p.block_votes
  unfolding is_empty_votes
  payload_votes-Coded p v =
      let flag = v.any_block_votes_eq in
      if-Coded _ _ _ _ p.block_votes
        (λ any.
          let present : length p.block_votes.votes ≢ 0 = ground (arith, flag, any) in
          part-Coded _ _ _ p.block_votes (ground (arith, present, v.votes_located present))
            (block_votes-Coded p.block_votes v.votes_IsBlockVotes))
        (λ none_there. v.no_votes (ground (arith, flag, none_there)))

  same_flag : (a : Bool) → xor a a ≡ false
  unfolding xor
  same_flag true = refl
  same_flag false = refl

  same_flags : (a b c d : Bool) → (xor a a || (xor b b || (xor c c || xor d d))) ≡ false
  same_flags a b c d = rw (same_flag a, same_flag b, same_flag c, same_flag d) refl

  payload-IsWellFormed : (p : PayloadData) → IsPayload p → is_malformed p ≡ false
  unfolding is_malformed
  payload-IsWellFormed p v =
      rw (v.any_txs_eq, v.any_mps_eq, v.any_epoch_vote_eq, v.any_block_votes_eq)
        (same_flags _ _ _ _)

  pub payload-Coded :
      (p : PayloadData)
      → IsPayload p
      → Coded (marshal_payload rlp p) (unmarshal_payload rlp empty_payload_hash) p
  unfolding marshal_payload unmarshal_payload
  payload-Coded p v =
      Coded-as (λ w. rw (payload-IsWellFormed p v) refl) (λ r. refl)
        (Coded-then _ (event-Coded empty_payload_hash p.event v.event_IsEvent) (
          Coded-then _ (fixed_bytes-Coded p.sig 64 (sym v.length-sig)) (
            Coded-then _
              (if-Coded _ [] _ _ p.txs (payload_txs-Coded p v)
                (λ none_there. no_items p.txs (sym v.any_txs_eq ∙ none_there)))
              (Coded-then _
                (if-Coded _ [] _ _ p.misbehaviour_proofs
                  (λ any.
                    rlp-Coded rlp.encode_mps rlp.decode_mps p.misbehaviour_proofs (v.rlp_mps any))
                  (λ none_there. no_items p.misbehaviour_proofs (sym v.any_mps_eq ∙ none_there)))
                (Coded-then _ (payload_vote-Coded p v)
                  (Coded-post _ (payload_votes-Coded p v) (λ r. refl)))))))
