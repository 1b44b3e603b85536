-- ===== src/Inter/Serializer/Events/RoundTrip.antt =====
-- inter/event_serializer.go: an event is read back as it was written, in both formats.
use go_opera.Base.{ℕ, ◌/◌, ◌^◌, ◌≤◌, ◌<◌, ◌≡◌, ◌≢◌, refl, sym, arith, ap, ◌∙◌}
use go_opera.Base.{List, [], ◌++◌, Bool, true, false, ◌&&◌, ◌||◌, some, All, length}
use go_opera.Base.{
  Result, ok, err, ◌>>=◌, >>=-assoc, if◌then◌else◌, ltb, nat_beq, inl, inr, Bool-cases, u32, sub64,
}
use go_opera.Base.{non_canonical_encoding}
use go_opera.Inter.Serializer.{max_msg_size}
use go_opera.Inter.Serializer.Events.{
  EventData, has_payload, marshal_version, unmarshal_version, unmarshal_net_fork_id,
  marshal_net_fork_id,
}
use go_opera.Inter.Serializer.Events.{
  marshal_payload_hash, unmarshal_payload_hash, marshal_fields, unmarshal_fields, marshal_event,
  unmarshal_event,
}
use go_opera.Inter.Serializer.Events.Parts.{
  IsParent, parents-Coded, optional_hash-Coded, flag-Coded, net_fork_id-Coded, payload_hash-Coded,
}
use go_opera.Inter.Serializer.Votes.{IsHash}
use go_opera.Utils.Bits
use go_opera.Utils.Bits.Stream.{low_bits}
use go_opera.Utils.Bits.Reading.{view_lem}
use go_opera.Utils.Bits.Reading
use go_opera.Utils.Cser.{Reader, read_u32, write_u32, read_u8, write_u8}
use go_opera.Utils.Cser.Codec.{Coded, Coded-as, Coded-check, Coded-then, Coded-post, Coded-marked}
use go_opera.Utils.Cser.Fields.{
  u8-Coded, u32-Coded, u32-Coded_long, u64-Coded, i64-Coded, bool-Coded, field-Coded,
  slice_bytes-Coded,
}
use mathlib.Core.List.{append-nil}

-- The marker and the version of the new format.
version-Coded :
    (version epoch : ℕ)
    → 0 < version
    → Coded (marshal_version version epoch) unmarshal_version version
unfolding marshal_version unmarshal_version
version-Coded version epoch new =
    let is_new : ltb 0 version ≡ true = ground arith in
    let positive : nat_beq version 0 ≡ false = ground arith in
    let (marker, bits) = field-Coded 2 0 (omega arith) (omega arith) (omega arith) in
    let next : ℕ × Reader → Result (ℕ × Reader) = λ p.
      read_u8 p.1 >>= (λ q. if nat_beq q.0 0 then err non_canonical_encoding else ok (q.0, q.1)) in
    Coded-as
      (λ w. rw is_new (sym (>>=-assoc (Bits.write w.bits_w 2 0) _ (λ w'. write_u8 w' version))))
      (λ r. refl)
      (Coded-marked next unmarshal_version 2 0 [] marker (bits ∙ sym (append-nil _))
        (Coded-post _ (u8-Coded version) (λ r. rw positive refl))
        (λ r s ahead.
          rw (view_lem r.bits_r 2 0 s (omega arith) (omega arith) ahead)
            (sym (>>=-assoc (Bits.read r.bits_r 2) _ next))))

-- Without a marker the version is 0.
unmarked :
    (r : Reader) (k : ℕ) (s : List Bool)
    → 0 < k
    → k < 2 ^ 2
    → Reading.Ahead r.bits_r (low_bits 2 k ++ s)
    → unmarshal_version r ≡ ok (0, r)
unfolding unmarshal_version
unmarked r k s positive small ahead =
    let marked : nat_beq k 0 ≡ false = ground arith in
    rw (view_lem r.bits_r 2 k s small (omega arith) ahead, marked) refl

module _ (empty_payload_hash : ℕ → ℕ) where
  -- An event that can be written.
  pub record IsEvent (e : EventData) : Type 0 where
    pub version_le : e.version ≤ 1
    pub legacy :
        e.version ≡ 0
        → (256 ≤ e.epoch)
          × (e.net_fork_id ≡ 0)
          × (e.any_misbehaviour_proofs ≡ false)
          × (e.any_epoch_vote ≡ false)
          × (e.any_block_votes ≡ false)
    pub net_fork_id_lt : e.net_fork_id < 2 ^ 16
    pub epoch_lt : e.epoch < 2 ^ 32
    pub lamport_lt : e.lamport < 2 ^ 32
    pub creator_lt : e.creator < 2 ^ 32
    pub seq_lt : e.seq < 2 ^ 32
    pub frame_lt : e.frame < 2 ^ 32
    pub creation_time_lt : e.creation_time < 2 ^ 64
    pub median_time_lt : e.median_time < 2 ^ 64
    pub gas_power_used_lt : e.gas_power_used < 2 ^ 64
    pub short_lt : e.gas_power_left.short < 2 ^ 64
    pub long_lt : e.gas_power_left.long < 2 ^ 64
    pub parents_le : length e.parents ≤ max_msg_size / 24
    pub parents_IsParent : All (IsParent e.epoch e.lamport) e.parents
    pub prev_IsHash : (h : ℕ) → e.prev_epoch_hash ≡ some h → IsHash h
    pub payload_IsHash : IsHash e.payload_hash
    pub payload_differs : has_payload e ≡ true → e.payload_hash ≢ empty_payload_hash e.version
    pub payload_same : has_payload e ≡ false → e.payload_hash ≡ empty_payload_hash e.version
    pub extra_le : length e.extra ≤ max_msg_size

  any_same : (a b c d : Bool) → (a || (b || (d || c))) ≡ (a || (b || (c || d)))
  any_same a b c d = ground arith

  fields-Coded :
      (e : EventData)
      → IsEvent e
      → Coded
          (marshal_fields e)
          (unmarshal_fields empty_payload_hash e.version e.net_fork_id e.epoch)
          e
  unfolding marshal_fields unmarshal_fields
  fields-Coded e v =
      let k = length e.parents in
      let few : u32 k ≡ k = omega (arith, v.parents_le) in
      let count : Coded (λ w. write_u32 w (u32 k)) read_u32 k =
        rw few (u32-Coded k (omega (arith, v.parents_le))) in
      let allowed : ltb (max_msg_size / 24) k ≡ false = ground (arith, v.parents_le) in
      let any = any_same e.any_txs e.any_misbehaviour_proofs e.any_block_votes e.any_epoch_vote in
      let payload : Coded (marshal_payload_hash (has_payload e) e.payload_hash)
          (unmarshal_payload_hash
            (e.any_txs || (e.any_misbehaviour_proofs || (e.any_epoch_vote || e.any_block_votes)))
            (empty_payload_hash e.version))
          e.payload_hash =
        Coded-as (λ w. refl)
          (λ r. ap (λ t. unmarshal_payload_hash t (empty_payload_hash e.version) r) any)
          (payload_hash-Coded (has_payload e) (empty_payload_hash e.version) e.payload_hash
            v.payload_IsHash v.payload_differs v.payload_same) in
      let not_low : (nat_beq e.version 0 && ltb e.epoch 256) ≡ false = ground (arith, v.legacy) in
      let median : sub64 e.creation_time (sub64 e.creation_time e.median_time) ≡ e.median_time =
        omega (arith, v.creation_time_lt, v.median_time_lt) in
      Coded-then _ (u32-Coded e.lamport v.lamport_lt) (
        Coded-then _ (u32-Coded e.creator v.creator_lt) (
          Coded-then _ (u32-Coded e.seq v.seq_lt) (
            Coded-then _ (u32-Coded e.frame v.frame_lt) (
              Coded-then _ (u64-Coded e.creation_time v.creation_time_lt) (
                Coded-then _ (i64-Coded (sub64 e.creation_time e.median_time) (omega arith)) (
                  Coded-then _ (u64-Coded e.gas_power_used v.gas_power_used_lt) (
                    Coded-then _ (u64-Coded e.gas_power_left.short v.short_lt) (
                      Coded-then _ (u64-Coded e.gas_power_left.long v.long_lt) (
                        Coded-then _ count (
                          Coded-check _ _ allowed (
                            Coded-then _
                              (parents-Coded e.epoch e.lamport e.parents v.lamport_lt
                                v.parents_IsParent)
                              (Coded-then _ (optional_hash-Coded e.prev_epoch_hash v.prev_IsHash) (
                                Coded-then _ (bool-Coded e.any_txs) (
                                  Coded-then _
                                    (flag-Coded e.version e.any_misbehaviour_proofs
                                      (λ old. (v.legacy old).2))
                                    (Coded-then _
                                      (flag-Coded e.version e.any_epoch_vote
                                        (λ old. (v.legacy old).3))
                                      (Coded-then _
                                        (flag-Coded e.version e.any_block_votes
                                          (λ old. (v.legacy old).4))
                                        (Coded-then _ payload (
                                          Coded-post _
                                            (slice_bytes-Coded e.extra max_msg_size v.extra_le
                                              (omega (arith, v.extra_le)))
                                            (λ r. rw (not_low, median) refl)))))))))))))))))))

  new_event-Coded :
      (e : EventData)
      → IsEvent e
      → 0 < e.version
      → Coded (marshal_event e) (unmarshal_event empty_payload_hash) e
  unfolding marshal_event unmarshal_event
  new_event-Coded e v new =
      let known : ltb 1 e.version ≡ false = ground (arith, v.version_le) in
      Coded-then _ (version-Coded e.version e.epoch new) (
        Coded-check _ _ known (
          Coded-then _
            (net_fork_id-Coded e.version e.net_fork_id v.net_fork_id_lt
              (λ old. absurd (omega arith)))
            (Coded-then _ (u32-Coded e.epoch v.epoch_lt) (fields-Coded e v))))

  legacy_event-Coded :
      (e : EventData)
      → IsEvent e
      → e.version ≡ 0
      → Coded (marshal_event e) (unmarshal_event empty_payload_hash) e
  unfolding marshal_event unmarshal_event marshal_version marshal_net_fork_id unmarshal_net_fork_id
  legacy_event-Coded e v old =
      let (high, no_id, _, _, _) = v.legacy old in
      let (epoch, (k, positive, small, bits)) = u32-Coded_long e.epoch high v.epoch_lt in
      let next : ℕ × Reader → Result (EventData × Reader) =
        λ p. unmarshal_fields empty_payload_hash e.version e.net_fork_id p.0 p.1 in
      let is_old : ltb 0 e.version ≡ false = ground arith in
      let not_low : ltb e.epoch 256 ≡ false = ground arith in
      Coded-as (λ w. rw (is_old, not_low) refl) (λ r. refl)
        (Coded-marked next (unmarshal_event empty_payload_hash) 2 k [] epoch
          (bits ∙ sym (append-nil _)) (fields-Coded e v)
          (λ r s ahead. rw (unmarked r k s positive small ahead, old, no_id) refl))

  pub event-Coded :
      (e : EventData) → IsEvent e → Coded (marshal_event e) (unmarshal_event empty_payload_hash) e
  event-Coded e v = elim (Bool-cases (ltb 0 e.version)) [
    | inl new ↦ new_event-Coded e v (ground arith)
    | inr old ↦ legacy_event-Coded e v (ground arith)
  ]
