-- ===== src/Gossip/BlockProc/Sealer/States.antt =====
-- gossip/blockproc/sealmodule/sealer.go: the states of the validators in the next epoch.
use go_opera.Base.{some-injective}
use go_opera.Base.{ℕ, zero, suc, ◌+◌, List, [], ◌∷◌, map, true, false, ◌≡◌}
use go_opera.Base.{length, get_elem?, refl, sym, ap, arith}
use go_opera.Base.{some, ok, Bool-cases, inl, inr}
use go_opera.Base.{get_elem?-lt}
use go_opera.Pos.{Validators, IsGroup}
use go_opera.Inter.BlockProc.{BlockCtx, ValidatorBlockState, ValidatorEpochState}
use go_opera.Gossip.BlockProc.Sealer.{
  Sealer, next_states, states_from, fresh_states, inherited_states,
}
use mathlib.Core.Path.{subst}

-- The old states are those of the old group.
pub record IsSealable (s : Sealer) : Type 0 where
  pub group : IsGroup s.es.validators
  pub states : length s.bs.validator_states ≡ s.es.validators.len

-- The states of a validator that was not in the old group: it was last seen at the sealing block
-- and has nothing else.
pub record IsNewcomer (block : BlockCtx) (vb : ValidatorBlockState) (ve : ValidatorEpochState)
    : Type 0 where
  pub seen_at : (vb.last_block ≡ block.idx) × (vb.last_online_time ≡ block.time)
  pub no_uptime : vb.uptime ≡ 0
  pub owed_nothing : (vb.dirty_gas_refund ≡ 0) × (vb.originated ≡ 0) × (ve.gas_refund ≡ 0)
  pub no_gas_left : (vb.last_gas_power_left.short ≡ 0) × (vb.last_gas_power_left.long ≡ 0)
  pub no_event : (vb.last_event.id ≡ 0) × (vb.last_event.time ≡ 0)
  pub no_event_gas :
      (vb.last_event.gas_power_left.short ≡ 0) × (vb.last_event.gas_power_left.long ≡ 0)
  pub same_event : ve.prev_epoch_event ≡ vb.last_event

-- The states of a validator with the old state `old`: the refund and the last event move to the
-- epoch's state, the uptime starts again, and all else is kept.
pub record IsCarried (old vb : ValidatorBlockState) (ve : ValidatorEpochState) : Type 0 where
  pub refund_moved : (ve.gas_refund ≡ old.dirty_gas_refund) × (vb.dirty_gas_refund ≡ 0)
  pub event_moved : ve.prev_epoch_event ≡ old.last_event
  pub no_uptime : vb.uptime ≡ 0
  pub event_kept : vb.last_event ≡ old.last_event
  pub seen_at_kept : (vb.last_block ≡ old.last_block) × (vb.last_online_time ≡ old.last_online_time)
  pub gas_kept : vb.last_gas_power_left ≡ old.last_gas_power_left
  pub originated_kept : vb.originated ≡ old.originated

-- The states of a validator in the next epoch: those of a newcomer, or its old ones carried over.
pub data NextStates (s : Sealer) (id : ℕ) (p : ValidatorBlockState × ValidatorEpochState)
    : Type 0 where
  newcomer : s.es.validators.exists id ≡ false → IsNewcomer s.block p.0 p.1 → NextStates s id p
  carried :
      (old : ValidatorBlockState)
      → s.es.validators.exists id ≡ true
      → get_elem? s.bs.validator_states (s.es.validators.get_idx id) ≡ some old
      → IsCarried old p.0 p.1
      → NextStates s id p

fresh_states-IsNewcomer :
    (block : BlockCtx) → IsNewcomer block (fresh_states block).0 (fresh_states block).1
fresh_states-IsNewcomer block = record {
  seen_at = (refl, refl);
  no_uptime = refl;
  owed_nothing = (refl, refl, refl);
  no_gas_left = (refl, refl);
  no_event = (refl, refl);
  no_event_gas = (refl, refl);
  same_event = refl;
}

inherited_states-IsCarried :
    (old : ValidatorBlockState) → IsCarried old (inherited_states old).0 (inherited_states old).1
inherited_states-IsCarried old = record {
  refund_moved = (refl, refl);
  event_moved = refl;
  no_uptime = refl;
  event_kept = refl;
  seen_at_kept = (refl, refl);
  gas_kept = refl;
  originated_kept = refl;
}

next_states_lem :
    (s : Sealer) (new_validators : Validators) (i : ℕ)
    → IsSealable s
    → (p : ValidatorBlockState × ValidatorEpochState) × (next_states s new_validators i ≡ ok p)
      × NextStates s (new_validators.get_id i) p
unfolding next_states
next_states_lem s new_validators i sealable =
    let id = new_validators.get_id i in
    elim (Bool-cases (s.es.validators.exists id)) [
      | inr absent ↦
          (fresh_states s.block, rw absent refl, newcomer absent (fresh_states-IsNewcomer s.block))
      | inl member ↦
          let in_range = sealable.group.idx_in_range id member in
          let (old, found) =
            get_elem?-lt s.bs.validator_states (s.es.validators.get_idx id)
              (omega (arith, sealable.states)) in
          (
            inherited_states old,
            rw (member, found) refl,
            carried old member found (inherited_states-IsCarried old),
          )
    ]

-- The states `ps` are those of the validators at the indices from `i` on.
abbrev pub Each :
    Sealer → Validators → ℕ → List (ValidatorBlockState × ValidatorEpochState) → Type 0
Each s new_validators i ps =
    (j : ℕ) (p : ValidatorBlockState × ValidatorEpochState)
    → get_elem? ps j ≡ some p
    → NextStates s (new_validators.get_id (i + j)) p

Each-cons :
    (s : Sealer) (new_validators : Validators) (i : ℕ)
    (p : ValidatorBlockState × ValidatorEpochState)
    (ps : List (ValidatorBlockState × ValidatorEpochState))
    → NextStates s (new_validators.get_id i) p
    → Each s new_validators (suc i) ps
    → Each s new_validators i (p ∷ ps)
Each-cons s new_validators i p ps first rest zero q h =
    subst (λ k. NextStates s (new_validators.get_id k) q) (omega arith)
      (subst (NextStates s (new_validators.get_id i)) (some-injective h) first)
Each-cons s new_validators i p ps first rest (suc j) q h =
    subst (λ k. NextStates s (new_validators.get_id k) q) (omega arith) (rest j q h)

-- The states of the indices from `i` on, one for each of them.
pub states_from_lem :
    (s : Sealer) (new_validators : Validators) (n i : ℕ)
    → IsSealable s
    → (ps : List (ValidatorBlockState × ValidatorEpochState)) × (states_from s new_validators n i
        ≡ ok ps)
      × (length ps ≡ n)
      × Each s new_validators i ps
unfolding states_from
states_from_lem s new_validators zero i sealable = ([], refl, refl, λ j p h. absurd (cc))
states_from_lem s new_validators (suc n) i sealable =
    let (p, first, carry) = next_states_lem s new_validators i sealable in
    let (ps, rest, len, each) = states_from_lem s new_validators n (suc i) sealable in
    (p ∷ ps, rw (first, rest) refl, ap suc len, Each-cons s new_validators i p ps carry each)

get_elem?-map :
    {A B : Type 0} (f : A → B) (xs : List A) (j : ℕ) (b : B)
    → get_elem? (map f xs) j ≡ some b
    → (a : A) × (get_elem? xs j ≡ some a) × (f a ≡ b)
get_elem?-map f [] j b h = absurd (cc)
get_elem?-map f (x ∷ xs) zero b h = (x, refl, some-injective h)
get_elem?-map f (x ∷ xs) (suc j) b h = get_elem?-map f xs j b h

pub pair_at :
    {A B : Type 0} (ps : List (A × B)) (j : ℕ) (a : A) (b : B)
    → get_elem? (map (λ p. p.0) ps) j ≡ some a
    → get_elem? (map (λ p. p.1) ps) j ≡ some b
    → get_elem? ps j ≡ some (a, b)
pair_at [] j a b h k = absurd (cc)
pair_at (p ∷ ps) zero a b h k = rw (some-injective (sym h), some-injective (sym k)) refl
pair_at (p ∷ ps) (suc j) a b h k = pair_at ps j a b h k
