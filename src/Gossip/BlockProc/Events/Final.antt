-- ===== src/Gossip/BlockProc/Events/Final.antt =====
-- The validators' states at the end of a block.
use go_opera.Base.{
  ℕ, zero, suc, ◌+◌, ◌<◌, ◌≤◌, List, [], ◌∷◌, false, ◌≡◌, ◌≢◌, refl, sym, ap, arith,
}
use go_opera.Base.{
  ltb, u64, length, get_elem?, ◌∙◌, nat_beq, nat_beq_iff, All, IsU64, ◌⊎◌, inl, inr,
}
use go_opera.Base.{Option, some, none, ok, length-replicate, get_elem?-replicate, Bool-cases}
use go_opera.Base.{some-injective, lt-length_of_get_elem?}
use go_opera.Inter.Event.{Event}
use go_opera.Inter.BlockProc.{BlockCtx, BlockState, EpochState, ValidatorBlockState}
use go_opera.Gossip.BlockProc.Events.{Processor, start, finalize}
use go_opera.Gossip.BlockProc.Events.Laws.{updated, event_at, finalize_from_lem, is_cheater, unless}
use go_opera.Gossip.BlockProc.Events.Block.{
  with_gas, process_events, taken, highest, gas_sum, AreMembers, process_events_lem,
  CheatersDropped, drop_cheaters_lem,
}
use go_opera.Gossip.BlockProc.Events.Updates.{StateAfter, updated-StateAfter}
use mathlib.Core.Path.{subst}

-- The validator's event of the list that has the highest sequence number, if it has an event.
pub data IsHighest (get_idx : ℕ → ℕ) (j : ℕ) (events : List Event) : Option Event → Type 0 where
  no_events : All (λ e. get_idx e.creator ≢ j) events → IsHighest get_idx j events none
  highest_of :
      (e : Event) (i : ℕ)
      → get_elem? events i ≡ some e
      → get_idx e.creator ≡ j
      → All (λ e'. get_idx e'.creator ≡ j → e'.seq ≤ e.seq) events
      → IsHighest get_idx j events (some e)

-- With an event before the list, or none.
data IsHighestFrom (get_idx : ℕ → ℕ) (j : ℕ) (o : Option Event) (events : List Event)
    : Option Event → Type 0 where
  nothing :
      o ≡ none → All (λ e. get_idx e.creator ≢ j) events → IsHighestFrom get_idx j o events none
  first :
      (e : Event)
      → o ≡ some e
      → All (λ e'. get_idx e'.creator ≡ j → e'.seq ≤ e.seq) events
      → IsHighestFrom get_idx j o events (some e)
  later :
      (e : Event) (i : ℕ)
      → get_elem? events i ≡ some e
      → get_idx e.creator ≡ j
      → ((x : Event) → o ≡ some x → x.seq ≤ e.seq)
      → All (λ e'. get_idx e'.creator ≡ j → e'.seq ≤ e.seq) events
      → IsHighestFrom get_idx j o events (some e)

taken-above :
    (get_idx : ℕ → ℕ) (j : ℕ) (o : Option Event) (e : Event) (n : ℕ)
    → ((x : Event) → taken get_idx j o e ≡ some x → x.seq ≤ n)
    → ((x : Event) → o ≡ some x → x.seq ≤ n) × (get_idx e.creator ≡ j → e.seq ≤ n)
taken-above get_idx j none e n above =
    (λ x h. absurd (cc), λ mine. ground (arith, above e, nat_beq_iff (get_idx e.creator) j))
taken-above get_idx j (some y) e n above = (
  λ x h.
      subst (λ z. z.seq ≤ n) (some-injective h)
        (ground (arith, above e, above y, nat_beq_iff (get_idx e.creator) j)),
  λ mine. ground (arith, above e, above y, nat_beq_iff (get_idx e.creator) j),
)

taken-cases :
    (get_idx : ℕ → ℕ) (j : ℕ) (o : Option Event) (e top : Event)
    → taken get_idx j o e ≡ some top
    → ((e ≡ top) × (get_idx e.creator ≡ j) × ((x : Event) → o ≡ some x → x.seq ≤ e.seq))
      ⊎ ((o ≡ some top) × (get_idx e.creator ≡ j → e.seq ≤ top.seq))
taken-cases get_idx j none e top h = elim (Bool-cases (nat_beq (get_idx e.creator) j)) [
  | inl mine ↦ inl (ground arith, (nat_beq_iff (get_idx e.creator) j).0 mine, λ x h. absurd (cc))
  | inr other ↦ absurd (ground arith)
]
taken-cases get_idx j (some y) e top h = elim (Bool-cases (nat_beq (get_idx e.creator) j)) [
  | inr other ↦ inr (ground arith, ground (arith, nat_beq_iff (get_idx e.creator) j))
  | inl mine ↦ elim (Bool-cases (ltb y.seq e.seq)) [
    | inl higher ↦ inl (
      ground arith,
      (nat_beq_iff (get_idx e.creator) j).0 mine,
      λ x is_y. subst (λ z. z.seq ≤ e.seq) (some-injective is_y) (ground arith),
    )
    | inr lower ↦
        let same : y ≡ top = ground arith in
        inr (ap some same, λ _. subst (λ z. e.seq ≤ z.seq) same (ground arith))
  ]
]

-- One more event before the list.
IsHighestFrom-cons :
    (get_idx : ℕ → ℕ) (j : ℕ) (o : Option Event) (e : Event) (events : List Event)
    (r : Option Event)
    → IsHighestFrom get_idx j (taken get_idx j o e) events r
    → IsHighestFrom get_idx j o (e ∷ events) r
IsHighestFrom-cons get_idx j none e events r (nothing is_none rest) =
    nothing refl (λ eq. ground (arith, nat_beq_iff (get_idx e.creator) j), rest)
IsHighestFrom-cons get_idx j (some x) e events r (nothing is_none rest) = absurd (ground arith)
IsHighestFrom-cons get_idx j o e events r (later top i found mine above rest) =
    let (before, here) = taken-above get_idx j o e top.seq above in
    later top (suc i) found mine before (here, rest)
IsHighestFrom-cons get_idx j o e events r (first top is_top rest) =
    elim (taken-cases get_idx j o e top is_top) [
      | inr (was, here) ↦ first top was (here, rest)
      | inl (same, mine, above) ↦
          subst
            (λ z.
              All (λ e'. get_idx e'.creator ≡ j → e'.seq ≤ z.seq) events
              → IsHighestFrom get_idx j o (e ∷ events) (some z))
            same (λ rest. later e 0 refl mine above (λ _. omega arith, rest)) rest
    ]

highest_from :
    (get_idx : ℕ → ℕ) (j : ℕ) (o : Option Event) (events : List Event)
    → IsHighestFrom get_idx j o events (highest get_idx j o events)
unfolding highest
highest_from get_idx j none [] = nothing refl tt
highest_from get_idx j (some e) [] = first e refl tt
highest_from get_idx j o (e ∷ events) =
    IsHighestFrom-cons get_idx j o e events _ (highest_from get_idx j (taken get_idx j o e) events)

from_none :
    (get_idx : ℕ → ℕ) (j : ℕ) (events : List Event) (r : Option Event)
    → IsHighestFrom get_idx j none events r
    → IsHighest get_idx j events r
from_none get_idx j events r (nothing _ others) = no_events others
from_none get_idx j events r (first e impossible rest) = absurd (cc)
from_none get_idx j events r (later e i found mine _ rest) = highest_of e i found mine rest

highest_lem :
    (get_idx : ℕ → ℕ) (j : ℕ) (events : List Event)
    → IsHighest get_idx j events (highest get_idx j none events)
highest_lem get_idx j events = from_none get_idx j events _ (highest_from get_idx j none events)

event_at-get_elem? :
    (events : List (Option Event)) (i j : ℕ) (o : Option Event)
    → get_elem? events j ≡ some o
    → event_at i events (i + j) ≡ o
event_at-get_elem? [] i j o h = absurd (cc)
event_at-get_elem? (x ∷ events) i zero o h = ground (arith, some-injective h)
event_at-get_elem? (x ∷ events) i (suc j) o h =
    let rest : event_at (suc i) events (suc i + j) ≡ o = event_at-get_elem? events (suc i) j o h in
    let same : suc i + j ≡ i + suc j = omega arith in
    let other : nat_beq i (i + suc j) ≡ false = ground arith in
    rw other (ap (event_at (suc i) events) (sym same) ∙ rest)

-- The block state that the events of a block lead to.
pub record BlockFinalized (bs : BlockState) (es : EpochState) (block : BlockCtx)
    (events : List Event) (bs' : BlockState) : Type 0 where
  pub gas : bs'.epoch_gas ≡ u64 (bs.epoch_gas + gas_sum events)
  pub len : length bs'.validator_states ≡ length bs.validator_states
  pub each :
      (j : ℕ) (info : ValidatorBlockState)
      → get_elem? bs.validator_states j ≡ some info
      → (o : Option Event) × (new : ValidatorBlockState) × IsHighest es.validators.get_idx j events
          o
        × (get_elem? bs'.validator_states j ≡ some new)
        × StateAfter es block (is_cheater es.validators.get_idx bs.epoch_cheaters j) o info new
  pub others :
      bs' ≡ record bs { epoch_gas = bs'.epoch_gas; validator_states = bs'.validator_states }

processor_eta :
    (q : Processor) (es : EpochState) (bs : BlockState)
    → q.es ≡ es
    → q.bs ≡ bs
    → record { es = es; bs = bs; validator_highest_events = q.validator_highest_events } ≡ q
processor_eta q es bs h k = rw (sym h, sym k) refl

-- The end of a block, given the highest events.
finalized :
    (bs : BlockState) (es : EpochState) (block : BlockCtx) (events : List Event)
    (hs : List (Option Event)) (gas : ℕ)
    → length bs.validator_states ≡ es.validators.len
    → length hs ≡ es.validators.len
    → gas ≡ u64 (bs.epoch_gas + gas_sum events)
    → ((j : ℕ)
        → j < es.validators.len
        → get_elem? hs j ≡ some (highest es.validators.get_idx j none events))
    → CheatersDropped es.validators.get_idx bs.epoch_cheaters hs
    → (bs' : BlockState) × (finalize
          (record { es = es; bs = with_gas gas bs; validator_highest_events = hs })
          block
        ≡ ok bs')
      × BlockFinalized bs es block events bs'
unfolding finalize
finalized bs es block events hs gas len len_hs is_gas each dropped =
    let get_idx = es.validators.get_idx in
    let (t, returns, same_len, updates) =
      finalize_from_lem es block 0 dropped.after bs.validator_states
        (omega (arith, len, len_hs, dropped.len)) in
    (
      record bs { epoch_gas = gas; validator_states = t },
      rw (dropped.returns, returns) refl,
      record {
        gas = is_gas;
        len = same_len;
        each = λ j info found.
            let o = highest get_idx j none events in
            let kept = unless (is_cheater get_idx bs.epoch_cheaters j) o in
            let in_range = lt-length_of_get_elem? bs.validator_states j info found in
            let at : event_at 0 dropped.after (0 + j) ≡ kept =
              event_at-get_elem? dropped.after 0 j kept
                (dropped.each j o (each j (omega (arith, len)))) in
            let zero_add : 0 + j ≡ j = omega arith in
            (
              o,
              updated es block kept info,
              highest_lem get_idx j events,
              updates j info found
                  ∙ ap (λ o. some (updated es block o info))
                      (ap (event_at 0 dropped.after) (sym zero_add) ∙ at),
              updated-StateAfter es block (is_cheater get_idx bs.epoch_cheaters j) o info,
            );
        others = refl;
      },
    )

-- All calls of a block: the events of members, then the end of the block. None of them panics when
-- the block state has one state for each validator and the cheaters are members. The epoch's gas
-- grows by what the events used, modulo 2^64. A validator that is a cheater or has no event keeps its
-- state. Any other was last seen with its event of the highest sequence number, at its median time
-- and with its gas power; its uptime grows by the time since it was last online, and from Berlin on
-- since the epoch's start, but stays if it missed too many blocks or that time is not positive.
pub finalize-process_events :
    (bs : BlockState) (es : EpochState) (block : BlockCtx) (events : List Event)
    → length bs.validator_states ≡ es.validators.len
    → IsU64 bs.epoch_gas
    → AreMembers es.validators.get_idx es.validators.len events
    → All (λ v. es.validators.get_idx v < es.validators.len) bs.epoch_cheaters
    → (p : Processor) × (bs' : BlockState) × (process_events (start bs es) events ≡ ok p)
      × (finalize p block ≡ ok bs')
      × BlockFinalized bs es block events bs'
unfolding start
finalize-process_events bs es block events len small members cheaters =
    let p0 : Processor = start bs es in
    let n : length p0.validator_highest_events ≡ es.validators.len =
      length-replicate es.validators.len none in
    let done =
      process_events_lem p0 events small
        (subst (λ n. AreMembers es.validators.get_idx n events) (sym n) members) in
    let hs = done.after.validator_highest_events in
    let dropped = drop_cheaters_lem es.validators.get_idx bs.epoch_cheaters hs (
      subst (λ n. All (λ v. es.validators.get_idx v < n) bs.epoch_cheaters) (sym (done.len ∙ n))
        cheaters) in
    let (bs', returns, result) =
      finalized bs es block events hs done.after.bs.epoch_gas len (done.len ∙ n) done.gas_sum
        (λ j h. done.each j none (get_elem?-replicate es.validators.len j none h)) dropped in
    (
      done.after,
      bs',
      done.returns,
      subst (λ q. finalize q block ≡ ok bs')
          (processor_eta done.after es (with_gas done.after.bs.epoch_gas bs) done.same_es done.gas)
          returns,
      result,
    )
