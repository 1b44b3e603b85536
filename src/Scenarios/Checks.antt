-- ===== src/Scenarios/Checks.antt =====
-- An event that passes all checks, and a proof of misbehaviour.
use go_opera.Base.{◌+◌, ◌<◌, [], ◌∷◌, true, ◌≡◌, ◌≢◌, refl, arith, ◌↔◌}
use go_opera.Base.{some, none, ok, panic, get_elem?, nat_beq}
use go_opera.Inter.GasPowerLeft.{max}
use go_opera.Inter.Mps.{MisbehaviourProof}
use go_opera.Inter.Event.{Event}
use go_opera.EventCheck.Basic.{GasParams, check_bvs, check_ev}
use go_opera.EventCheck.Basic.Limits.{BlockVotesWithin, check_bvs_iff}
use go_opera.EventCheck.Basic.Total.{validate_mp-no_panic}
use go_opera.EventCheck.Basic.Mps
use go_opera.EventCheck.Basic.Mps.{validate_mp, validate_mps}
use go_opera.EventCheck.Basic
use go_opera.EventCheck.Epoch
use go_opera.EventCheck.Epoch.{calc_gas_power_used, check_gas, txs_gas, expected_version}
use go_opera.EventCheck.GasPower
use go_opera.EventCheck.GasPower.{
  PerSec, Config, ValidationContext, gas_power_at, calc_gas_power, calc_gas_power_of,
  prev_gas_and_time, calc_validator_gas_power, calc_validator_gas_power_per_sec, config_of,
}
use go_opera.EventCheck.GasPower.Bounds.{WithinRate, validate_conserves}
use go_opera.EventCheck.Checkers
use go_opera.EventCheck.Checkers.{Environment, validate_parents, self_parent_of}
use go_opera.EventCheck.Checkers.Laws.{accepted_event_conserves}
use go_opera.Inter.GasPowerLeft.{short_term_gas, long_term_gas}
use go_opera.Scenarios.{group, rules}
use go_opera.Scenarios.Blocks.{event}
use go_opera.Scenarios.Votes.{block_votes}

abbrev rate : PerSec
rate = record { per_sec = 100; max_gas_power = 1000; startup = 100 }

abbrev parent : Event
parent = record (event 1 1 30 1000000000) { id = 11 }

-- Two seconds later it has 200 more gas, of which it uses 30: the gas of an event with one parent.
abbrev child : Event
child = record (event 1 2 28 3000000000) {
  id = 12;
  parents = 11 ∷ [];
  self_parent = some 11;
  is_self_parent = nat_beq 11;
  gas_power_left = record { short = 222; long = 222 };
}

abbrev context : ValidationContext
context = record {
  epoch = 1;
  short_config = config_of short_term_gas rules.economy.short_gas_power rules.economy;
  long_config = config_of long_term_gas rules.economy.long_gas_power rules.economy;
  epoch_start = 0;
  validators = group;
  validator_states = [];
}

valid_gas : GasPower.validate context child (some parent) ≡ ok tt
unfolding GasPower.validate calc_gas_power calc_gas_power_of prev_gas_and_time
    calc_validator_gas_power calc_validator_gas_power_per_sec gas_power_at config_of
valid_gas = refl

validate_conserves_example :
    WithinRate child parent context context.short_config (222 + 28)
    × WithinRate child parent context context.long_config (222 + 28)
validate_conserves_example =
    validate_conserves context child parent 11 refl (omega arith) (omega arith) valid_gas

abbrev env : Environment
env = record {
  gas_params = record {
    tx_gas_contract_creation = 53000;
    tx_gas = 21000;
    tx_data_non_zero_gas = 16;
    tx_data_zero_gas = 4;
    tx_access_list_address_gas = 2400;
    tx_access_list_storage_key_gas = 1900;
  };
  base_basic = λ e. ok tt;
  base_epoch = λ e. ok tt;
  base_parents = λ e parents. ok tt;
  heavy = λ e. ok tt;
  rules = rules;
  epoch = 1;
  gas_power = context;
}

valid : Checkers.validate env child (parent ∷ []) ≡ ok tt
unfolding Checkers.validate Mps.validate Basic.check_txs validate_mps check_ev check_bvs max
    Epoch.validate calc_gas_power_used txs_gas check_gas Epoch.check_txs expected_version
    validate_parents self_parent_of GasPower.validate calc_gas_power calc_gas_power_of
    prev_gas_and_time calc_validator_gas_power calc_validator_gas_power_per_sec gas_power_at
    config_of
valid = refl

accepted_event_conserves_example :
    (p : Event) × (get_elem? (parent ∷ []) 0 ≡ some p)
    × (child.is_self_parent p.id ≡ true)
    × (p.creation_time < child.creation_time)
    × WithinRate child p context context.short_config (222 + 28)
    × WithinRate child p context context.long_config (222 + 28)
accepted_event_conserves_example = accepted_event_conserves env child (parent ∷ []) 11 refl valid

check_bvs_iff_example :
    (check_bvs 1 block_votes.val true ≡ ok tt) ↔ BlockVotesWithin 1 block_votes.val true
check_bvs_iff_example = check_bvs_iff 1 block_votes.val true

-- Two signed votes for block 1 with different hashes.
abbrev doublesign : MisbehaviourProof
doublesign = record {
  events_doublesign = none;
  block_vote_doublesign = some (record {
    block = 1;
    pair = record {
      fst = block_votes;
      snd = record block_votes { val = record { start = 1; epoch = 1; votes = 78 ∷ [] } };
    };
  });
  wrong_block_vote = none;
  epoch_vote_doublesign = none;
  wrong_epoch_vote = none;
}

validate_mp-no_panic_example : validate_mp 1 doublesign ≢ panic
validate_mp-no_panic_example = validate_mp-no_panic 1 doublesign
