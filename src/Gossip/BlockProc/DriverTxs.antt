-- ===== src/Gossip/BlockProc/DriverTxs.antt =====
-- gossip/blockproc/drivermodule/driver_txs.go: the internal transactions of a block, and what the
-- logs of the Driver contract change. Internal transactions are kept as the calls that they make.
pub mod Laws
pub mod Limits
use go_opera.Base.{
  ℕ, zero, suc, ◌+◌, ◌-◌, ◌*◌, List, [], ◌∷◌, ◌++◌, map, Bool, true, false, ◌&&◌, ◌||◌,
}
use go_opera.Base.{
  if◌then◌else◌, leb, ltb, nat_beq, nat_bne, u32, u64, sub64, length, get_elem?, set,
}
use go_opera.Base.{take, drop, lookup, insert, remove, nat_eq}
use go_opera.Base.{Option, some, none, Result, ok, err, panic, ◌>>=◌, expect}
use go_opera.Opera.{Rules, BlocksMissed}
use go_opera.Opera.Driver.{Log, DriverAbi, set_bytes}
use go_opera.Inter.BlockProc.{
  BlockCtx, BlockState, EpochState, ValidatorBlockState, Profile, PubKey,
}
use go_opera.Gossip.BlockProc.Events.{max_timestamp}

abbrev pub max_advance_epochs : ℕ
max_advance_epochs = 65536

-- `drivercall.ValidatorEpochMetric`
pub record ValidatorEpochMetric : Type 0 where
  pub missed : BlocksMissed
  pub uptime : ℕ
  pub originated_tx_fee : ℕ

pub data DriverCall : Type 0 where
  deactivate_validator : (validator_id : ℕ) → DriverCall
  seal_epoch : List ValidatorEpochMetric → DriverCall
  seal_epoch_validators : List ℕ → DriverCall

pub max_block_idx : ℕ → ℕ → ℕ
max_block_idx a b = if ltb b a then a else b

unfoldable pub epoch_metric : BlockCtx → EpochState → ValidatorBlockState → ValidatorEpochMetric
unfolding max_block_idx
epoch_metric block es info =
    let blocks_num = max_block_idx block.idx info.last_block - info.last_block in
    let prev_online_time = max_timestamp info.last_online_time es.epoch_start in
    if leb blocks_num es.rules.economy.block_missed_slack
    then record {
      missed = record { blocks_num = 0; period = 0 };
      uptime = u64 (info.uptime + (max_timestamp block.time prev_online_time - prev_online_time));
      originated_tx_fee = info.originated;
    }
    else record {
      missed = record {
        blocks_num = blocks_num;
        period = max_timestamp block.time info.last_online_time - info.last_online_time;
      };
      uptime = info.uptime;
      originated_tx_fee = info.originated;
    }

-- The metrics of the first `n` validator states.
unfoldable pub metrics_from :
    BlockCtx → EpochState → ℕ → List ValidatorBlockState → Result (List ValidatorEpochMetric)
metrics_from block es zero states = ok []
metrics_from block es (suc n) [] = panic
metrics_from block es (suc n) (info ∷ states) = do
  rest ← metrics_from block es n states
  ok (epoch_metric block es info ∷ rest)

-- `DriverTxPreTransactor.PopInternalTxs`. Slicing past the end is a panic.
unfoldable pub pop_pre_internal_txs :
    BlockCtx → BlockState → EpochState → (sealing : Bool) → Result (List DriverCall)
pop_pre_internal_txs block bs es sealing =
    let cheaters = map deactivate_validator (drop bs.cheaters_written bs.epoch_cheaters) in
    let sealed = (do
      metrics ← metrics_from block es es.validators.len bs.validator_states
      ok (cheaters ++ (seal_epoch metrics ∷ []))) in
    if ltb (length bs.epoch_cheaters) bs.cheaters_written
    then panic
    else if sealing
    then sealed
    else ok cheaters

-- `DriverTxTransactor.PopInternalTxs`, given `es.Validators.SortedIDs()`.
unfoldable pub pop_internal_txs : List ℕ → (sealing : Bool) → List DriverCall
pop_internal_txs sorted_ids sealing = if sealing then seal_epoch_validators sorted_ids ∷ [] else []

-- `DriverTxListener`
pub record Listener : Type 0 where
  pub block : BlockCtx
  pub es : EpochState
  pub bs : BlockState

unfoldable pub on_new_receipt :
    Listener → (tx_gas gas_price gas_used originator : ℕ) → Result Listener
on_new_receipt p tx_gas gas_price gas_used originator =
    let tracked = (do
      let i = p.es.validators.get_idx originator
      info ← expect (get_elem? p.bs.validator_states i)
      let not_used_gas = sub64 tx_gas gas_used
      let info' : ValidatorBlockState = record info {
        originated = info.originated + gas_used * gas_price;
        dirty_gas_refund =
            if nat_bne not_used_gas 0
            then u64 (info.dirty_gas_refund + not_used_gas)
            else info.dirty_gas_refund;
      }
      ok (record p {
        bs = record p.bs { validator_states = set p.bs.validator_states i info' };
      })) in
    if nat_beq originator 0 then ok p else tracked

-- `none` is the error; the offsets are uint64, and a slice out of range is a panic.
unfoldable pub decode_data_bytes : List ℕ → Result (Option (List ℕ))
decode_data_bytes data_bytes =
    let len = length data_bytes in
    let start = u64 (set_bytes (take 8 (drop 24 data_bytes))) in
    let size = u64 (set_bytes (take 8 (drop (u64 (start + 24)) data_bytes))) in
    let lo = u64 (start + 32) in
    let hi = u64 (u64 (start + 32) + size) in
    if ltb len 32
    then ok none
    else if ltb len lo
    then ok none
    else if ltb len (u64 (start + 24)) || ltb lo (u64 (start + 24))
    then panic
    else if ltb len hi
    then ok none
    else if ltb hi lo
    then panic
    else ok (some (take (hi - lo) (drop lo data_bytes)))

-- What `opera.UpdateRules` makes of the rules and a JSON diff; `none` is its error. JSON decoding
-- is outside the repository.
abbrev pub RulesUpdate : Type 0
RulesUpdate = Rules → List ℕ → Option Rules

-- `UpdateRules`: the name and the network's id are protected.
unfoldable pub update_rules : RulesUpdate → Rules → List ℕ → Option Rules
update_rules unmarshal src diff = elim (unmarshal src diff) [
  | none ↦ none
  | some changed ↦ some (record changed { network_id = src.network_id; name = src.name })
]

-- `validatorpk.FromBytes`; of no bytes it gives the empty key, and an error that is ignored here.
unfoldable pub pub_key_from_bytes : List ℕ → PubKey
pub_key_from_bytes [] = record { key_type = 0; raw = [] }
pub_key_from_bytes (b ∷ bs) = record { key_type = b; raw = bs }

-- A new weight for a validator; a zero weight removes it.
unfoldable pub update_weight : List (ℕ × Profile) → (validator_id weight : ℕ) → List (ℕ × Profile)
update_weight profiles validator_id weight =
    if nat_beq weight 0 then remove validator_id profiles else elim (lookup validator_id profiles) [
      | none ↦
          insert validator_id
            (record { weight = weight; pub_key = record { key_type = 0; raw = [] } }) profiles
      | some profile ↦ insert validator_id (record profile { weight = weight }) profiles
    ]

-- A new key for a validator that has a profile; any other is only logged, and ends the handler.
unfoldable pub update_pub_key : List (ℕ × Profile) → ℕ → List ℕ → Option (List (ℕ × Profile))
update_pub_key profiles validator_id pubkey = elim (lookup validator_id profiles) [
  | none ↦ none
  | some profile ↦
      some (insert validator_id (record profile { pub_key = pub_key_from_bytes pubkey }) profiles)
]

abbrev pub with_profiles : Listener → List (ℕ × Profile) → Listener
with_profiles p profiles = record p { bs = record p.bs { next_validator_profiles = profiles } }

abbrev pub current_rules : Listener → Rules
current_rules p = elim p.bs.dirty_rules [ none ↦ p.es.rules | some dirty ↦ dirty ]

-- `p.bs.AdvanceEpochs += idx.Epoch(epochsNum)`, then the limit.
unfoldable pub advance : ℕ → ℕ → ℕ
advance old epochs_num =
    let sum = u32 (old + u32 epochs_num) in
    if ltb max_advance_epochs sum then max_advance_epochs else sum

-- The four tests of `OnNewLog`, from the last to the first. A test that returns early does not
-- come to those after it.
unfoldable pub on_advance_epochs : DriverAbi → ℕ → Listener → Log → Listener
unfolding set_bytes advance
on_advance_epochs abi topic p l =
    if nat_beq topic abi.advance_epochs && leb 32 (length l.data_bytes)
    then record p {
      bs = record p.bs {
        advance_epochs = advance p.bs.advance_epochs (set_bytes (take 3 (drop 29 l.data_bytes)));
      };
    }
    else p

unfoldable pub on_rules : DriverAbi → RulesUpdate → ℕ → Listener → Log → Result Listener
unfolding decode_data_bytes update_rules
on_rules abi unmarshal topic p l =
    let updated = (do
      diff ← decode_data_bytes l.data_bytes
      ok (elim diff [
        | none ↦ p
        | some bytes ↦ elim (update_rules unmarshal (current_rules p) bytes) [
          | none ↦ p
          | some rules ↦
              on_advance_epochs abi topic
                (record p { bs = record p.bs { dirty_rules = some rules } }) l
        ]
      ])) in
    if nat_beq topic abi.update_network_rules && leb 64 (length l.data_bytes)
    then updated
    else ok (on_advance_epochs abi topic p l)

unfoldable pub on_pub_key : DriverAbi → RulesUpdate → ℕ → Listener → Log → Result Listener
unfolding decode_data_bytes update_pub_key
on_pub_key abi unmarshal topic p l =
    let updated = (do
      id ← expect (get_elem? l.topics 1)
      pubkey ← decode_data_bytes l.data_bytes
      elim pubkey [
        | none ↦ ok p
        | some bytes ↦ elim (update_pub_key p.bs.next_validator_profiles (u32 (u64 id)) bytes) [
          | none ↦ ok p
          | some profiles ↦ on_rules abi unmarshal topic (with_profiles p profiles) l
        ]
      ]) in
    if nat_beq topic abi.update_validator_pubkey && ltb 1 (length l.topics)
    then updated
    else on_rules abi unmarshal topic p l

unfoldable pub on_new_log : DriverAbi → RulesUpdate → Listener → Log → Result Listener
unfolding set_bytes update_weight
on_new_log abi unmarshal p l =
    let handled = (do
      topic ← expect (get_elem? l.topics 0)
      let weighted = (do
        id ← expect (get_elem? l.topics 1)
        on_pub_key abi unmarshal topic
            (with_profiles p (
              update_weight p.bs.next_validator_profiles (u32 (u64 id))
                (set_bytes (take 32 l.data_bytes))))
            l)
      if nat_beq topic abi.update_validator_weight
            && (ltb 1 (length l.topics) && leb 32 (length l.data_bytes))
          then weighted
          else on_pub_key abi unmarshal topic p l) in
    if nat_bne l.address abi.contract_address then ok p else handled

unfoldable pub listener_update : Listener → BlockState → EpochState → Listener
listener_update p bs es = record p { bs = bs; es = es }
