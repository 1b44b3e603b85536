-- ===== src/Gossip/BlockProc/Sealer.antt =====
-- gossip/blockproc/sealmodule/sealer.go: when an epoch ends, and the states of the next one. The
-- builder of a validators group is lachesis-base's, a parameter here: `build` is given the
-- validators and their weights. The copies of maps and numbers are values.
pub mod States
pub mod Laws
use go_opera.Base.{ℕ, zero, suc, ◌+◌, ◌-◌, List, [], ◌∷◌, map, Bool, true, false, not, ◌||◌}
use go_opera.Base.{if◌then◌else◌, leb, ltb, nat_beq, nat_bne, u32, u64, sub64, length, get_elem?}
use go_opera.Base.{Option, some, none, Result, ok, ◌>>=◌, expect}
use go_opera.Pos.{Validators}
use go_opera.Opera.{Rules}
use go_opera.Inter.BlockProc.{
  BlockCtx, BlockState, EpochState, ValidatorBlockState, ValidatorEpochState, zero_event_info,
  zero_gas,
}

-- `OperaEpochsSealer`
pub record Sealer : Type 0 where
  pub block : BlockCtx
  pub es : EpochState
  pub bs : BlockState

unfoldable pub start : BlockCtx → BlockState → EpochState → Sealer
start block bs es = record { block = block; es = es; bs = bs }

unfoldable pub update : Sealer → BlockState → EpochState → Sealer
update s bs es = record s { bs = bs; es = es }

unfoldable pub epoch_sealing : Sealer → Bool
epoch_sealing s =
    leb s.es.rules.epochs.max_epoch_gas s.bs.epoch_gas
    || (leb s.es.rules.epochs.max_epoch_duration (sub64 s.block.time s.es.epoch_start)
        || (ltb 0 s.bs.advance_epochs || nat_bne (length s.bs.epoch_cheaters) 0))

-- The default state of a validator: `Originated` is a new zero number.
abbrev pub default_block_state : ValidatorBlockState
default_block_state = record {
  last_event = zero_event_info;
  uptime = 0;
  last_online_time = 0;
  last_gas_power_left = zero_gas;
  last_block = 0;
  dirty_gas_refund = 0;
  originated = 0;
}

abbrev pub default_epoch_state : ValidatorEpochState
default_epoch_state = record { gas_refund = 0; prev_epoch_event = zero_event_info }

-- A validator that was not in the group of the epoch before.
abbrev pub fresh_states : BlockCtx → ValidatorBlockState × ValidatorEpochState
fresh_states block = (
  record default_block_state { last_block = block.idx; last_online_time = block.time },
  default_epoch_state,
)

-- A validator that was: its refund and last event move to the epoch's state.
abbrev pub inherited_states : ValidatorBlockState → ValidatorBlockState × ValidatorEpochState
inherited_states old = (
  record old { dirty_gas_refund = 0; uptime = 0 },
  record { gas_refund = old.dirty_gas_refund; prev_epoch_event = old.last_event },
)

-- One round of the loop, for the index `i` of the new group.
unfoldable pub next_states :
    Sealer → Validators → ℕ → Result (ValidatorBlockState × ValidatorEpochState)
next_states s new_validators i =
    let id = new_validators.get_id i in
    let inherited = (do
      old ← expect (get_elem? s.bs.validator_states (s.es.validators.get_idx id))
      ok (inherited_states old)) in
    if s.es.validators.exists id then inherited else ok (fresh_states s.block)

-- The rounds from index `i` on, `n` of them.
unfoldable pub states_from :
    Sealer → Validators → (n i : ℕ) → Result (List (ValidatorBlockState × ValidatorEpochState))
states_from s new_validators zero i = ok []
states_from s new_validators (suc n) i = do
  first ← next_states s new_validators i
  rest ← states_from s new_validators n (suc i)
  ok (first ∷ rest)

abbrev pub rules_after : Option Rules → Rules → Rules
rules_after none rules = rules
rules_after (some dirty) rules = dirty

unfoldable pub seal_epoch : (List (ℕ × ℕ) → Validators) → Sealer → Result (BlockState × EpochState)
seal_epoch build s =
    let new_validators = build (map (λ p. (p.0, p.1.weight)) s.bs.next_validator_profiles) in
    do
      states ← states_from s new_validators new_validators.len 0
      ok (
        record s.bs {
          validator_states = map (λ p. p.0) states;
          dirty_rules = none;
          epoch_gas = 0;
          epoch_cheaters = [];
          cheaters_written = 0;
          advance_epochs =
              if ltb 0 s.bs.advance_epochs then s.bs.advance_epochs - 1 else s.bs.advance_epochs;
        },
        record s.es {
          validators = new_validators;
          validator_profiles = s.bs.next_validator_profiles;
          validator_states = map (λ p. p.1) states;
          prev_epoch_start = s.es.epoch_start;
          epoch_start = s.block.time;
          rules = rules_after s.bs.dirty_rules s.es.rules;
          epoch_state_root = s.bs.finalized_state_root;
          epoch = u32 (s.es.epoch + 1);
        },
      )
