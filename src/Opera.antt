-- ===== src/Opera.antt =====
-- opera/rules.go: the network rules that the other parts read.
pub mod Driver
use go_opera.Base.{ℕ, Bool, ℤ}

pub record GasPowerRules : Type 0 where
  pub alloc_per_sec : ℕ
  pub max_alloc_period : ℕ
  pub startup_alloc_period : ℕ
  pub min_startup_gas : ℕ

pub record GasRules : Type 0 where
  pub max_event_gas : ℕ
  pub event_gas : ℕ
  pub parent_gas : ℕ
  pub extra_data_gas : ℕ
  pub block_votes_base_gas : ℕ
  pub block_vote_gas : ℕ
  pub epoch_vote_gas : ℕ
  pub misbehaviour_proof_gas : ℕ

pub record EpochsRules : Type 0 where
  pub max_epoch_gas : ℕ
  pub max_epoch_duration : ℕ

pub record DagRules : Type 0 where
  pub max_parents : ℕ
  pub max_free_parents : ℕ
  pub max_extra_data : ℕ

pub record BlocksMissed : Type 0 where
  pub blocks_num : ℕ
  pub period : ℕ

pub record EconomyRules : Type 0 where
  pub block_missed_slack : ℕ
  pub gas : GasRules
  pub min_gas_price : ℤ
  pub short_gas_power : GasPowerRules
  pub long_gas_power : GasPowerRules

pub record BlocksRules : Type 0 where
  pub max_block_gas : ℕ
  pub max_empty_block_skip_period : ℕ

pub record Upgrades : Type 0 where
  pub berlin : Bool
  pub london : Bool
  pub llr : Bool

pub record UpgradeHeight : Type 0 where
  pub upgrades : Upgrades
  pub height : ℕ

pub record Rules : Type 0 where
  pub name : ℕ
  pub network_id : ℕ
  pub dag : DagRules
  pub epochs : EpochsRules
  pub blocks : BlocksRules
  pub economy : EconomyRules
  pub upgrades : Upgrades
