-- ===== src/Scenarios.antt =====
-- Concrete inputs for the theorems: a group of three validators, an empty store, and the states of
-- a block and of an epoch.
mod Votes
mod Records
mod Blocks
mod Checks
mod Bytes
mod Cser
use go_opera.Base.{
  ℕ, ◌+◌, ◌-◌, ◌≤◌, ◌<◌, List, [], ◌∷◌, Bool, true, false, ◌&&◌, ltb, leb, if◌then◌else◌, arith,
  refl,
}
use go_opera.Base.{Option, some, none, ℤ, pos, ◌≡◌}
use go_opera.Pos.{Validators, IsGroup}
use go_opera.Opera.{Rules, GasPowerRules}
use go_opera.Inter.BlockProc.{
  BlockCtx, BlockState, EpochState, ValidatorBlockState, zero_gas, zero_event_info,
}
use go_opera.Gossip.Store.{Store, Block}

-- The validators 1, 2 and 3, each with weight 1.
abbrev pub group : Validators
group = record {
  len = 3;
  exists = λ id. ltb 0 id && leb id 3;
  get_idx = λ id. id - 1;
  get_id = λ i. i + 1;
  get = λ id. if ltb 0 id && leb id 3 then 1 else 0;
  get_weight_by_idx = λ i. if ltb i 3 then 1 else 0;
  total_weight = 3;
}

pub group-IsGroup : IsGroup group
group-IsGroup = record {
  idx_in_range = λ id h. ground arith;
  id_of_idx = λ id h. ground arith;
  idx_of_id = λ i h. ground arith;
  id_exists = λ i h. ground arith;
  total = refl;
  total_u32 = omega arith;
}

abbrev pub power : GasPowerRules
power = record {
  alloc_per_sec = 300;
  max_alloc_period = 10000000000;
  startup_alloc_period = 1000000000;
  min_startup_gas = 100;
}

abbrev pub rules : Rules
rules = record {
  name = 0;
  network_id = 250;
  dag = record { max_parents = 10; max_free_parents = 3; max_extra_data = 128 };
  epochs = record { max_epoch_gas = 1000; max_epoch_duration = 600 };
  blocks = record { max_block_gas = 20000000; max_empty_block_skip_period = 60 };
  economy = record {
    block_missed_slack = 50;
    gas = record {
      max_event_gas = 500;
      event_gas = 28;
      parent_gas = 2;
      extra_data_gas = 1;
      block_votes_base_gas = 1;
      block_vote_gas = 1;
      epoch_vote_gas = 1;
      misbehaviour_proof_gas = 1;
    };
    min_gas_price = pos 1;
    short_gas_power = power;
    long_gas_power = power;
  };
  upgrades = record { berlin = true; london = false; llr = true };
}

abbrev pub validator_state : ValidatorBlockState
validator_state = record {
  last_event = zero_event_info;
  uptime = 0;
  last_online_time = 90;
  last_gas_power_left = zero_gas;
  last_block = 6;
  dirty_gas_refund = 5;
  originated = 0;
}

abbrev pub block_state : BlockState
block_state = record {
  last_block = record { idx = 6; time = 95; atropos = 66 };
  finalized_state_root = 1;
  epoch_gas = 40;
  epoch_cheaters = 3 ∷ [];
  cheaters_written = 0;
  validator_states = validator_state ∷ validator_state ∷ validator_state ∷ [];
  next_validator_profiles =
      (1, record { weight = 1; pub_key = record { key_type = 192; raw = 9 ∷ [] } }) ∷ [];
  dirty_rules = none;
  advance_epochs = 2;
}

abbrev pub epoch_state : EpochState
epoch_state = record {
  epoch = 1;
  epoch_start = 80;
  prev_epoch_start = 0;
  epoch_state_root = 0;
  validators = group;
  validator_states = [];
  validator_profiles = [];
  rules = rules;
}

abbrev pub genesis : Block
genesis = record {
  time = 0;
  atropos = 0;
  events = [];
  txs = [];
  internal_txs = [];
  skipped_txs = [];
  gas_used = 0;
  root = 0;
}

-- A store with no votes, of which block 1 and epoch 2 are the lowest undecided ones.
abbrev pub empty_store : Store
empty_store = record {
  block_votes_index = record { cache = []; table = [] };
  epoch_votes_index = record { cache = []; table = [] };
  block_results = [];
  epoch_results = [];
  block_votes = [];
  epoch_votes = [];
  last_bvs = [];
  last_evs = [];
  llr_state = record {
    lowest_epoch_to_decide = 2;
    lowest_epoch_to_fill = 2;
    lowest_block_to_decide = 1;
    lowest_block_to_fill = 1;
  };
  current = record { block_state = block_state; epoch_state = epoch_state };
  history = [];
  genesis_block = genesis;
  blocks = [];
  block_index = [];
  epoch_blocks = [];
  upgrade_heights = [];
  evm = [];
  network_version = 0;
}
