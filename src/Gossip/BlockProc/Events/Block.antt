-- ===== src/Gossip/BlockProc/Events/Block.antt =====
-- All confirmed events of a block, and the block state that they lead to.
use go_opera.Base.{get_elem?-set}
use go_opera.Base.{ℕ, ◌+◌, ◌<◌, List, [], ◌∷◌, Bool, true, false, ◌≡◌, refl, sym, ap}
use go_opera.Base.{if◌then◌else◌, u64, length, get_elem?, set, arith, ◌∙◌, nat_beq, All, IsU64}
use go_opera.Base.{Option, some, none, Result, ok, ◌>>=◌}
use go_opera.Base.{get_elem?-lt, length-set, nat_beq_iff}
use go_opera.Base.{lt-length_of_get_elem?}
use go_opera.Inter.Event.{Event}
use go_opera.Inter.BlockProc.{BlockState}
use go_opera.Gossip.BlockProc.Events.{Processor, process_confirmed_event, drop_cheaters, is_higher}
use go_opera.Gossip.BlockProc.Events.Laws.{is_cheater, unless}
use mathlib.Core.Path.{subst}

-- The calls of `ProcessConfirmedEvent` for the events of a block.
unfoldable pub process_events : Processor → List Event → Result Processor
process_events p [] = ok p
process_events p (e ∷ events) = do p' ← process_confirmed_event p e; process_events p' events

-- The higher of an event of the list and the one before it, for the validator at index `j`.
abbrev pub taken : (ℕ → ℕ) → ℕ → Option Event → Event → Option Event
taken get_idx j o e =
    if nat_beq (get_idx e.creator) j then (if is_higher e o then some e else o) else o

-- The first event with the highest sequence number of the validator at index `j`, `o` before them.
unfoldable pub highest : (ℕ → ℕ) → ℕ → Option Event → List Event → Option Event
highest get_idx j o [] = o
highest get_idx j o (e ∷ events) = highest get_idx j (taken get_idx j o e) events

abbrev pub gas_sum : List Event → ℕ
gas_sum [] = 0
gas_sum (e ∷ events) = e.gas_power_used + gas_sum events

abbrev pub with_gas : ℕ → BlockState → BlockState
with_gas gas bs = record bs { epoch_gas = gas }

-- What a call of `ProcessConfirmedEvent` does with an event of a member.
record EventProcessed (p : Processor) (e : Event) : Type 0 where
  after : Processor
  returns : process_confirmed_event p e ≡ ok after
  same_es : after.es ≡ p.es
  len : length after.validator_highest_events ≡ length p.validator_highest_events
  each :
      (j : ℕ) (o : Option Event)
      → get_elem? p.validator_highest_events j ≡ some o
      → get_elem? after.validator_highest_events j ≡ some (taken p.es.validators.get_idx j o e)
  gas : after.bs ≡ record p.bs { epoch_gas = u64 (p.bs.epoch_gas + e.gas_power_used) }

raised_each :
    (b : Bool) (xs : List (Option Event)) (i : ℕ) (e : Event) (prev : Option Event)
    → get_elem? xs i ≡ some prev
    → b ≡ is_higher e prev
    → (j : ℕ) (o : Option Event) → get_elem? xs j ≡ some o
    → get_elem? (if b then set xs i (some e) else xs) j
      ≡ some (if nat_beq i j then (if is_higher e o then some e else o) else o)
raised_each b xs i e prev here is_b j o found = ground (
  arith,
  get_elem?-set xs i j (some e) (lt-length_of_get_elem? xs i prev here),
  nat_beq_iff i j,
  ap (get_elem? xs),
)

process_confirmed_event_lem :
    (p : Processor) (e : Event)
    → p.es.validators.get_idx e.creator < length p.validator_highest_events
    → EventProcessed p e
unfolding process_confirmed_event
process_confirmed_event_lem p e h =
    let xs = p.validator_highest_events in
    let i = p.es.validators.get_idx e.creator in
    let (prev, here) = get_elem?-lt xs i h in
    record {
      after = record p {
        validator_highest_events = if is_higher e prev then set xs i (some e) else xs;
        bs = record p.bs { epoch_gas = u64 (p.bs.epoch_gas + e.gas_power_used) };
      };
      returns = rw here refl;
      same_es = refl;
      len = ground (arith, length-set xs i (some e));
      each = raised_each (is_higher e prev) xs i e prev here refl;
      gas = refl;
    }

-- All creators have an index within `n`.
abbrev pub AreMembers : (ℕ → ℕ) → ℕ → List Event → Type 0
AreMembers get_idx n events = All (λ e. get_idx e.creator < n) events

-- What the events of a block do to the processor.
pub record EventsProcessed (p : Processor) (events : List Event) : Type 0 where
  pub after : Processor
  pub returns : process_events p events ≡ ok after
  pub same_es : after.es ≡ p.es
  pub len : length after.validator_highest_events ≡ length p.validator_highest_events
  pub each :
      (j : ℕ) (o : Option Event)
      → get_elem? p.validator_highest_events j ≡ some o
      → get_elem? after.validator_highest_events j
        ≡ some (highest p.es.validators.get_idx j o events)
  pub gas : after.bs ≡ record p.bs { epoch_gas = after.bs.epoch_gas }
  pub gas_sum : after.bs.epoch_gas ≡ u64 (p.bs.epoch_gas + gas_sum events)

pub process_events_lem :
    (p : Processor) (events : List Event)
    → IsU64 p.bs.epoch_gas
    → AreMembers p.es.validators.get_idx (length p.validator_highest_events) events
    → EventsProcessed p events
unfolding process_events highest
process_events_lem p [] small members = record {
  after = p;
  returns = refl;
  same_es = refl;
  len = refl;
  each = λ j o found. found;
  gas = refl;
  gas_sum = ground arith;
}
process_events_lem p (e ∷ events) small members =
    let one = process_confirmed_event_lem p e members.0 in
    let g : one.after.bs.epoch_gas ≡ u64 (p.bs.epoch_gas + e.gas_power_used) =
      ap (λ b. b.epoch_gas) one.gas in
    let small' : IsU64 one.after.bs.epoch_gas = omega (arith, g) in
    let others : AreMembers one.after.es.validators.get_idx
        (length one.after.validator_highest_events) events =
      subst
        (λ es. AreMembers es.validators.get_idx (length one.after.validator_highest_events) events)
        (sym one.same_es)
        (subst (λ n. AreMembers p.es.validators.get_idx n events) (sym one.len) members.1) in
    let rest = process_events_lem one.after events small' others in
    record {
      after = rest.after;
      returns = rw one.returns rest.returns;
      same_es = rest.same_es ∙ one.same_es;
      len = rest.len ∙ one.len;
      each = λ j o found.
          let o' : Option Event = taken p.es.validators.get_idx j o e in
          rest.each j o' (one.each j o found)
          ∙ ap (λ es. some (highest es.validators.get_idx j o' events)) one.same_es;
      gas = rest.gas ∙ ap (with_gas rest.after.bs.epoch_gas) one.gas;
      gas_sum = omega (arith, rest.gas_sum, g);
    }

-- The cheaters' events are dropped, the others stay.
pub record CheatersDropped (get_idx : ℕ → ℕ) (cheaters : List ℕ) (events : List (Option Event))
    : Type 0 where
  pub after : List (Option Event)
  pub returns : drop_cheaters get_idx cheaters events ≡ ok after
  pub len : length after ≡ length events
  pub each :
      (j : ℕ) (o : Option Event)
      → get_elem? events j ≡ some o
      → get_elem? after j ≡ some (unless (is_cheater get_idx cheaters j) o)

moved :
    (b : Bool) (o : Option Event) {x : Option (Option Event)}
    → x ≡ some o
    → (if b then some none else x) ≡ some (if b then none else o)
moved true o h = refl
moved false o h = h

drop_twice :
    (b c : Bool) (o : Option Event)
    → unless c (if b then none else o) ≡ unless (if b then true else c) o
drop_twice true true o = refl
drop_twice true false o = refl
drop_twice false c o = refl

pub drop_cheaters_lem :
    (get_idx : ℕ → ℕ) (cheaters : List ℕ) (events : List (Option Event))
    → All (λ v. get_idx v < length events) cheaters
    → CheatersDropped get_idx cheaters events
unfolding drop_cheaters
drop_cheaters_lem get_idx [] events h = record {
  after = events;
  returns = refl;
  len = refl;
  each = λ j o found. found;
}
drop_cheaters_lem get_idx (v ∷ cheaters) events h =
    let events' = set events (get_idx v) none in
    let len' = length-set events (get_idx v) none in
    let (old, here) = get_elem?-lt events (get_idx v) h.0 in
    let rest =
      drop_cheaters_lem get_idx cheaters events'
        (subst (λ n. All (λ v. get_idx v < n) cheaters) (sym len') h.1) in
    record {
      after = rest.after;
      returns = rw here rest.returns;
      len = rest.len ∙ len';
      each = λ j o found.
          rest.each j (if nat_beq (get_idx v) j then none else o)
            (get_elem?-set events (get_idx v) j none h.0 ∙ moved (nat_beq (get_idx v) j) o found)
          ∙ ap some (drop_twice (nat_beq (get_idx v) j) (is_cheater get_idx cheaters j) o);
    }
