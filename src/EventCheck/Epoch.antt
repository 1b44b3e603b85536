-- ===== src/EventCheck/Epoch.antt =====
-- eventcheck/epochcheck/epoch_check.go: the checks against the rules of the event's epoch.
use go_opera.Base.{ℕ, ◌+◌, ◌-◌, ◌*◌, List, [], ◌∷◌, if◌then◌else◌, ltb, nat_bne}
use go_opera.Base.{u32, u64, length, ok, ◌>>◌, Check, fail_if, Error, ltb_ℤ}
use go_opera.Inter.Event.{Event, Transaction}
use go_opera.Opera.{Rules, Upgrades}

unfoldable pub txs_gas : List Transaction → ℕ → ℕ
txs_gas [] acc = acc
txs_gas (tx ∷ txs) acc = txs_gas txs (u64 (acc + tx.gas))

unfoldable pub calc_gas_power_used : Event → Rules → ℕ
unfolding txs_gas
calc_gas_power_used e rules =
    let gas = rules.economy.gas in
    let free = rules.dag.max_free_parents in
    let parents = u32 (length e.parents) in
    let parents_gas = if ltb free parents then u64 ((parents - free) * gas.parent_gas) else 0 in
    let extra_gas = u64 (length e.extra * gas.extra_data_gas) in
    let mps_gas = u64 (length e.misbehaviour_proofs * gas.misbehaviour_proof_gas) in
    let bvs_gas =
      if nat_bne e.block_votes.start 0
      then u64 (gas.block_votes_base_gas + length e.block_votes.votes * gas.block_vote_gas)
      else 0 in
    let ers_gas = if nat_bne e.epoch_vote.epoch 0 then gas.epoch_vote_gas else 0 in
    u64 (txs_gas e.txs 0 + parents_gas + extra_gas + gas.event_gas + mps_gas + bvs_gas + ers_gas)

unfoldable pub check_gas : Event → Rules → Check
check_gas e rules = do
  fail_if (ltb rules.economy.gas.max_event_gas e.gas_power_used) Error.too_big_gas_used
  fail_if (nat_bne e.gas_power_used (calc_gas_power_used e rules)) Error.wrong_gas_used

-- `maxType`: London's wins over Berlin's.
unfoldable pub max_type : Upgrades → ℕ
max_type u = if u.london then 2 else if u.berlin then 1 else 0

unfoldable pub check_txs : List Transaction → Rules → Check
unfolding max_type
check_txs [] rules = ok tt
check_txs (tx ∷ txs) rules = do
  fail_if (ltb (max_type rules.upgrades) tx.tx_type) Error.unsupported_tx_type
  fail_if (ltb_ℤ tx.gas_fee_cap rules.economy.min_gas_price) Error.underpriced
  check_txs txs rules

unfoldable pub expected_version : Upgrades → ℕ
expected_version u = if u.llr then 1 else 0

-- `Validate`, given lachesis-base's check and what the reader's `GetEpochRules` returns.
unfoldable pub validate : (Event → Check) → Rules → (epoch : ℕ) → Event → Check
unfolding expected_version
validate base_validate rules epoch e = do
  base_validate e
  fail_if (nat_bne e.epoch epoch) Error.not_relevant
  fail_if (ltb rules.dag.max_parents (u32 (length e.parents))) Error.too_many_parents
  fail_if (ltb rules.dag.max_extra_data (u32 (length e.extra))) Error.too_big_extra
  check_gas e rules
  check_txs e.txs rules
  fail_if (nat_bne e.version (expected_version rules.upgrades)) Error.wrong_version
