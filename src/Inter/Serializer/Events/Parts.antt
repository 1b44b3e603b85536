-- ===== src/Inter/Serializer/Events/Parts.antt =====
-- inter/event_serializer.go: the parts of an event that are not plain fields are read back.
use go_opera.Base.{ℕ, ◌^◌, ◌≤◌, ◌<◌, ◌≡◌, ◌≢◌, refl, sym, arith, ap}
use go_opera.Base.{List, [], ◌∷◌, Bool, true, false, Option, some, none, All, length}
use go_opera.Base.{ok, ltb, nat_beq, inl, inr, Bool-cases, sub32}
use go_opera.Inter.Serializer.Events.{EventId, marshal_net_fork_id, unmarshal_net_fork_id}
use go_opera.Inter.Serializer.Events.{
  marshal_parents, unmarshal_parents, marshal_optional_hash, unmarshal_optional_hash,
}
use go_opera.Inter.Serializer.Events.{
  marshal_flag, unmarshal_flag, marshal_payload_hash, unmarshal_payload_hash,
}
use mathlib.Core.Path.{ap₂}
use go_opera.Inter.Serializer.Votes.{IsHash}
use go_opera.Utils.Cser.Arrays.{array-Coded}
use go_opera.Utils.Cser.Codec.{Coded, Coded-as, Coded-then, Coded-post, Coded-pure}
use go_opera.Utils.Cser.Fields.{u16-Coded, u32-Coded, bool-Coded}

-- A parent of an event of this epoch and lamport time.
pub record IsParent (epoch lamport : ℕ) (p : EventId) : Type 0 where
  pub same_epoch : p.epoch ≡ epoch
  pub lamport_le : p.lamport ≤ lamport
  pub tail_lt : p.tail < 256 ^ 24

pub parents-Coded :
    (epoch lamport : ℕ) (ps : List EventId)
    → lamport < 2 ^ 32
    → All (IsParent epoch lamport) ps
    → Coded (marshal_parents lamport ps) (unmarshal_parents (length ps) epoch lamport) ps
unfolding marshal_parents unmarshal_parents
parents-Coded epoch lamport [] h all = Coded-pure []
parents-Coded epoch lamport (p ∷ ps) h (parent, all) =
    let above : ltb lamport p.lamport ≡ false = ground (arith, parent.lamport_le) in
    let diff_lt : sub32 lamport p.lamport < 2 ^ 32 = omega arith in
    let back : record {
      epoch = epoch;
      lamport = sub32 lamport (sub32 lamport p.lamport);
      tail = p.tail;
    }
        ≡ p =
      ap₂ (λ (e l : ℕ). record { epoch = e; lamport = l; tail = p.tail }) (sym parent.same_epoch)
        (omega arith) in
    Coded-as (λ w. rw above refl) (λ r. refl)
      (Coded-then _ (u32-Coded (sub32 lamport p.lamport) diff_lt) (
        Coded-then _ (array-Coded 24 p.tail parent.tail_lt) (
          Coded-post _ (parents-Coded epoch lamport ps h all)
            (λ r. ap (λ t. ok (t ∷ ps, r)) back))))

pub optional_hash-Coded :
    (h : Option ℕ)
    → ((x : ℕ) → h ≡ some x → IsHash x)
    → Coded (marshal_optional_hash h) unmarshal_optional_hash h
unfolding marshal_optional_hash unmarshal_optional_hash
optional_hash-Coded none small = Coded-post _ (bool-Coded false) (λ r. refl)
optional_hash-Coded (some h) small =
    Coded-then _ (bool-Coded true) (Coded-post _ (array-Coded 32 h (small h refl)) (λ r. refl))

pub flag-Coded :
    (version : ℕ) (flag : Bool)
    → (version ≡ 0 → flag ≡ false)
    → Coded (marshal_flag version flag) (unmarshal_flag version) flag
unfolding marshal_flag unmarshal_flag
flag-Coded version flag old = elim (Bool-cases (ltb 0 version)) [
  | inl new ↦ Coded-as (λ w. rw new refl) (λ r. rw new refl) (bool-Coded flag)
  | inr legacy ↦
      Coded-as (λ w. rw legacy refl)
        (λ r. rw legacy (ap (λ t. ok (t, r)) (sym (old (ground arith))))) (Coded-pure flag)
]

pub net_fork_id-Coded :
    (version id : ℕ)
    → id < 2 ^ 16
    → (version ≡ 0 → id ≡ 0)
    → Coded (marshal_net_fork_id version id) (unmarshal_net_fork_id version) id
unfolding marshal_net_fork_id unmarshal_net_fork_id
net_fork_id-Coded version id small old = elim (Bool-cases (ltb 0 version)) [
  | inl new ↦ Coded-as (λ w. rw new refl) (λ r. rw new refl) (u16-Coded id small)
  | inr legacy ↦
      Coded-as (λ w. rw legacy refl)
        (λ r. rw legacy (ap (λ t. ok (t, r)) (sym (old (ground arith))))) (Coded-pure id)
]

pub payload_hash-Coded :
    (any : Bool) (empty h : ℕ)
    → IsHash h
    → (any ≡ true → h ≢ empty)
    → (any ≡ false → h ≡ empty)
    → Coded (marshal_payload_hash any h) (unmarshal_payload_hash any empty) h
unfolding marshal_payload_hash unmarshal_payload_hash
payload_hash-Coded true empty h small apart same =
    let other : nat_beq h empty ≡ false = ground (arith, apart refl) in
    Coded-post _ (array-Coded 32 h small) (λ r. rw other refl)
payload_hash-Coded false empty h small apart same = rw (same refl) (Coded-pure empty)
