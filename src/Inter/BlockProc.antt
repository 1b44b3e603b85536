-- ===== src/Inter/BlockProc.antt =====
-- inter/iblockproc: the state of a block and of an epoch.
use go_opera.Base.{ℕ, Option, List, Result, expect, get_elem?, sub64}
use go_opera.Inter.GasPowerLeft.{GasPowerLeft}
use go_opera.Pos.{Validators}
use go_opera.Opera.{Rules}

pub record EventInfo : Type 0 where
  pub id : ℕ
  pub gas_power_left : GasPowerLeft
  pub time : ℕ

pub record ValidatorBlockState : Type 0 where
  pub last_event : EventInfo
  pub uptime : ℕ
  pub last_online_time : ℕ
  pub last_gas_power_left : GasPowerLeft
  pub last_block : ℕ
  pub dirty_gas_refund : ℕ
  pub originated : ℕ

pub record ValidatorEpochState : Type 0 where
  pub gas_refund : ℕ
  pub prev_epoch_event : EventInfo

pub record BlockCtx : Type 0 where
  pub idx : ℕ
  pub time : ℕ
  pub atropos : ℕ

-- `validatorpk.PubKey`
pub record PubKey : Type 0 where
  pub key_type : ℕ
  pub raw : List ℕ

-- `drivertype.Validator`
pub record Profile : Type 0 where
  pub weight : ℕ
  pub pub_key : PubKey

-- A Go map from validator ids to profiles.
abbrev pub ValidatorProfiles : Type 0
ValidatorProfiles = List (ℕ × Profile)

pub record BlockState : Type 0 where
  pub last_block : BlockCtx
  pub finalized_state_root : ℕ
  pub epoch_gas : ℕ
  pub epoch_cheaters : List ℕ
  pub cheaters_written : ℕ
  pub validator_states : List ValidatorBlockState
  pub next_validator_profiles : ValidatorProfiles
  pub dirty_rules : Option Rules
  pub advance_epochs : ℕ

pub record EpochState : Type 0 where
  pub epoch : ℕ
  pub epoch_start : ℕ
  pub prev_epoch_start : ℕ
  pub epoch_state_root : ℕ
  pub validators : Validators
  pub validator_states : List ValidatorEpochState
  pub validator_profiles : ValidatorProfiles
  pub rules : Rules

-- The zero values of Go's `make`.
abbrev pub zero_gas : GasPowerLeft
zero_gas = record { short = 0; long = 0 }

abbrev pub zero_event_info : EventInfo
zero_event_info = record { id = 0; gas_power_left = zero_gas; time = 0 }

-- `bs.ValidatorStates[validators.GetIdx(id)]`; the index may be out of range.
unfoldable pub get_validator_state : BlockState → ℕ → Validators → Result ValidatorBlockState
get_validator_state bs id validators =
    expect (get_elem? bs.validator_states (validators.get_idx id))

unfoldable pub get_validator_epoch_state : EpochState → ℕ → Validators → Result ValidatorEpochState
get_validator_epoch_state es id validators =
    expect (get_elem? es.validator_states (validators.get_idx id))

unfoldable pub duration : EpochState → ℕ
duration es = sub64 es.epoch_start es.prev_epoch_start
