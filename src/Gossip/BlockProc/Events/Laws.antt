-- ===== src/Gossip/BlockProc/Events/Laws.antt =====
-- What the confirmed events of a block do to the validators' states.
use go_opera.Base.{some-injective}
use go_opera.Base.{ℕ, suc, ◌+◌, ◌<◌, ◌≤◌, List, [], ◌∷◌, Bool, true, false, ◌≡◌, refl, sym, ap}
use go_opera.Base.{if◌then◌else◌, length, get_elem?, set, arith, ◌∙◌, nat_beq}
use go_opera.Base.{Option, some, none, ok, Bool-cases, inl, inr}
use go_opera.Base.{get_elem?-lt, get_elem?-set_self, get_elem?-set_ne, length-set}
use go_opera.Base.{lt-length_of_get_elem?}
use go_opera.Inter.Event.{Event}
use go_opera.Inter.BlockProc.{BlockCtx, EpochState, ValidatorBlockState}
use go_opera.Gossip.BlockProc.Events.{after_event, finalize_from}
use mathlib.Core.Path.{subst}

-- A state after a block, given the event that is taken into account for it, if any.
abbrev pub updated :
    EpochState → BlockCtx → Option Event → ValidatorBlockState → ValidatorBlockState
updated es block none info = info
updated es block (some e) info = after_event es block info e

-- The event at an index of a list of which the first has index `i`.
abbrev pub event_at : ℕ → List (Option Event) → ℕ → Option Event
event_at i [] j = none
event_at i (o ∷ events) j = if nat_beq i j then o else event_at (suc i) events j

event_at-before :
    (i : ℕ) (events : List (Option Event)) (j : ℕ) → j < i → event_at i events j ≡ none
event_at-before i [] j h = refl
event_at-before i (o ∷ events) j h = ground (arith, event_at-before (suc i) events j (omega arith))

event_at-none :
    (i : ℕ) (events : List (Option Event)) (j : ℕ)
    → event_at (suc i) events j ≡ event_at i (none ∷ events) j
event_at-none i events j = elim (Bool-cases (nat_beq i j)) [
  | inl same ↦ rw same (event_at-before (suc i) events j (ground arith))
  | inr other ↦ rw other refl
]

-- A state that is set before the rest of the loop.
set_then :
    (es : EpochState) (block : BlockCtx) (i : ℕ) (e : Event) (events : List (Option Event))
    (states t : List ValidatorBlockState) (old : ValidatorBlockState)
    → get_elem? states i ≡ some old
    → ((j : ℕ) (info : ValidatorBlockState)
        → get_elem? (set states i (after_event es block old e)) j ≡ some info
        → get_elem? t j ≡ some (updated es block (event_at (suc i) events j) info))
    → (j : ℕ) (info : ValidatorBlockState) → get_elem? states j ≡ some info
    → get_elem? t j ≡ some (updated es block (event_at i (some e ∷ events) j) info)
set_then es block i e events states t old here each j info found = elim (Bool-cases (nat_beq i j)) [
  | inl same ↦
      let eq : i ≡ j = ground arith in
      let new = after_event es block old e in
      let info_is : info ≡ old =
        some-injective (sym found ∙ ap (get_elem? states) (sym eq) ∙ here) in
      let put = get_elem?-set_self states i new (lt-length_of_get_elem? states i old here) in
      let after = each i new put in
      rw (same, info_is)
        (subst (λ k. get_elem? t k ≡ some new) eq
          (after
            ∙ ap (λ o. some (updated es block o new))
                (event_at-before (suc i) events i (omega arith))))
  | inr other ↦ rw other (
      each j info (get_elem?-set_ne states i j (after_event es block old e) (ground arith) ∙ found))
]

-- The second loop of `Finalize` updates each state by the event at its index.
pub finalize_from_lem :
    (es : EpochState) (block : BlockCtx) (i : ℕ) (events : List (Option Event))
    (states : List ValidatorBlockState)
    → i + length events ≤ length states
    → (t : List ValidatorBlockState) × (finalize_from es block i events states ≡ ok t)
      × (length t ≡ length states)
      × ((j : ℕ) (info : ValidatorBlockState)
          → get_elem? states j ≡ some info
          → get_elem? t j ≡ some (updated es block (event_at i events j) info))
unfolding finalize_from
finalize_from_lem es block i [] states h = (states, refl, refl, λ j info found. found)
finalize_from_lem es block i (none ∷ events) states h =
    let (t, returns, len, each) = finalize_from_lem es block (suc i) events states (omega arith) in
    (
      t,
      returns,
      len,
      λ j info found.
          each j info found ∙ ap (λ o. some (updated es block o info)) (event_at-none i events j),
    )
finalize_from_lem es block i (some e ∷ events) states h =
    let (old, here) = get_elem?-lt states i (omega arith) in
    let states' = set states i (after_event es block old e) in
    let len' : length states' ≡ length states = length-set states i (after_event es block old e) in
    let (t, returns, len, each) =
      finalize_from_lem es block (suc i) events states' (omega (arith, len')) in
    (t, rw here returns, len ∙ len', set_then es block i e events states t old here each)

-- The validator at `j` is a cheater.
abbrev pub is_cheater : (ℕ → ℕ) → List ℕ → ℕ → Bool
is_cheater get_idx [] j = false
is_cheater get_idx (v ∷ cheaters) j =
    if nat_beq (get_idx v) j then true else is_cheater get_idx cheaters j

abbrev pub unless : {A : Type 0} → Bool → Option A → Option A
unless true o = none
unless false o = o
