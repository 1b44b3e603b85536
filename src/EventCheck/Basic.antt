-- ===== src/EventCheck/Basic.antt =====
-- eventcheck/basiccheck/basic_check.go: the checks that need nothing but the event, and
-- `IntrinsicGas` of evmcore/state_transition.go. The gas constants of go-ethereum and the base
-- checker of lachesis-base are parameters.
pub mod Mps
pub mod Limits
pub mod Total
use go_opera.Base.{
  ℕ, zero, suc, ◌+◌, ◌-◌, ◌*◌, ◌/◌, ◌^◌, List, [], ◌∷◌, Bool, true, false, ◌&&◌, ◌||◌,
}
use go_opera.Base.{
  if◌then◌else◌, leb, ltb, nat_beq, nat_bne, u64, u32, length, max_int32, max_int64,
}
use go_opera.Base.{
  Option, some, none, Result, ok, err, panic, ◌>>=◌, ◌>>◌, Check, fail_if, Error, differ,
}
use go_opera.Base.{is_negative, ltb_ℤ}
use go_opera.Inter.Llr.{
  EventLocator, LlrBlockVotes, LlrEpochVote, LlrSignedBlockVotes, LlrSignedEpochVote,
}
use go_opera.Inter.Event.{Transaction}

abbrev pub max_block_votes_per_event : ℕ
max_block_votes_per_event = 64

abbrev pub max_liable_epochs : ℕ
max_liable_epochs = 32768

-- The constants of go-ethereum's package params.
pub record GasParams : Type 0 where
  pub tx_gas_contract_creation : ℕ
  pub tx_gas : ℕ
  pub tx_data_non_zero_gas : ℕ
  pub tx_data_zero_gas : ℕ
  pub tx_access_list_address_gas : ℕ
  pub tx_access_list_storage_key_gas : ℕ

unfoldable pub count_non_zero : List ℕ → ℕ
count_non_zero [] = 0
count_non_zero (b ∷ bs) = (if nat_bne b 0 then 1 else 0) + count_non_zero bs

-- `AccessList.StorageKeys()`, of the numbers of keys of the entries.
unfoldable pub storage_keys : List ℕ → ℕ
storage_keys [] = 0
storage_keys (k ∷ ks) = k + storage_keys ks

-- `math.MaxUint64`
abbrev pub max_uint64 : ℕ
max_uint64 = 2 ^ 64 - 1

-- The gas of the data bytes, on top of `gas`.
unfoldable pub data_gas : GasParams → List ℕ → ℕ → Result ℕ
data_gas g bytes gas =
    let nz = count_non_zero bytes in
    let gas' = gas + nz * g.tx_data_non_zero_gas in
    let z = length bytes - nz in
    if nat_beq (length bytes) 0 then ok gas else (do
      fail_if (ltb ((max_uint64 - gas) / g.tx_data_non_zero_gas) nz) Error.out_of_gas
      fail_if (ltb ((max_uint64 - gas') / g.tx_data_zero_gas) z) Error.gas_uint_overflow
      ok (gas' + z * g.tx_data_zero_gas))

unfoldable pub access_list_gas : GasParams → Option (List ℕ) → ℕ → ℕ
access_list_gas g none gas = gas
access_list_gas g (some keys) gas = u64 (
    gas
    + length keys * g.tx_access_list_address_gas
    + storage_keys keys * g.tx_access_list_storage_key_gas)

unfoldable pub intrinsic_gas : GasParams → List ℕ → Option (List ℕ) → Bool → Result ℕ
unfolding data_gas access_list_gas
intrinsic_gas g bytes access_list is_contract_creation = do
  gas ← data_gas g bytes (if is_contract_creation then g.tx_gas_contract_creation else g.tx_gas)
  ok (access_list_gas g access_list gas)

unfoldable pub validate_tx : GasParams → Transaction → Check
validate_tx g tx = do
  fail_if (is_negative tx.value || is_negative tx.gas_price) Error.negative_value
  intr_gas ← intrinsic_gas g tx.data_bytes tx.access_list tx.to_is_nil
  fail_if (ltb tx.gas intr_gas) Error.intrinsic_gas
  fail_if (ltb_ℤ tx.gas_fee_cap tx.gas_tip_cap) Error.tip_above_fee_cap

-- `checkTxs`
unfoldable pub check_txs : GasParams → List Transaction → Check
check_txs g [] = ok tt
check_txs g (tx ∷ txs) = do validate_tx g tx; check_txs g txs

unfoldable pub validate_event_locator : EventLocator → Check
validate_event_locator e = do
  fail_if (nat_bne e.net_fork_id 0) Error.wrong_net_fork_id
  fail_if
      (leb (max_int32 - 1) e.seq || (leb (max_int32 - 1) e.epoch || leb (max_int32 - 1) e.lamport))
      Error.huge_value

-- `validateBVs`
unfoldable pub check_bvs : (event_epoch : ℕ) → LlrBlockVotes → (greedy : Bool) → Check
check_bvs event_epoch bvs greedy = do
  fail_if (ltb event_epoch bvs.epoch) Error.future_bvs_epoch
  fail_if (leb (max_int64 / 2) bvs.start) Error.huge_value
  fail_if (leb (max_int32 - 1) bvs.epoch) Error.huge_value
  fail_if (ltb max_block_votes_per_event (length bvs.votes)) Error.too_many_bvs
  fail_if
      (differ (nat_beq bvs.start 0) (nat_beq (length bvs.votes) 0)
        || differ (nat_beq bvs.start 0) (nat_beq bvs.epoch 0))
      Error.malformed_bvs
  fail_if (greedy && nat_beq bvs.epoch 0) Error.empty_bvs

-- `validateEV`
unfoldable pub check_ev : (event_epoch : ℕ) → LlrEpochVote → (greedy : Bool) → Check
check_ev event_epoch ev greedy = do
  fail_if (ltb event_epoch ev.epoch) Error.future_ev_epoch
  fail_if (differ (nat_beq ev.epoch 0) (nat_beq ev.vote 0)) Error.malformed_ev
  fail_if (leb (max_int32 - 1) ev.epoch) Error.huge_value
  fail_if (greedy && nat_beq ev.epoch 0) Error.empty_ev

unfoldable pub validate_bvs : LlrSignedBlockVotes → Check
validate_bvs bvs = do
  validate_event_locator bvs.signed.locator
  check_bvs bvs.signed.locator.epoch bvs.val true

unfoldable pub validate_ev : LlrSignedEpochVote → Check
validate_ev ev = do
  validate_event_locator ev.signed.locator
  check_ev ev.signed.locator.epoch ev.val true
