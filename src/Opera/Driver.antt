-- ===== src/Opera/Driver.antt =====
-- The logs of the Driver contract (opera/contracts/driver), and the big-endian numbers in them.
-- The contract's address and the topics, which are hashes of its ABI, are parameters.
use go_opera.Base.{ℕ, ◌+◌, ◌*◌, ◌^◌, List, [], ◌∷◌, length}

-- `types.Log`
pub record Log : Type 0 where
  pub address : ℕ
  pub topics : List ℕ
  pub data_bytes : List ℕ

pub record DriverAbi : Type 0 where
  pub contract_address : ℕ
  pub update_validator_weight : ℕ
  pub update_validator_pubkey : ℕ
  pub update_network_rules : ℕ
  pub update_network_version : ℕ
  pub advance_epochs : ℕ

-- `new(big.Int).SetBytes(b)`
unfoldable pub set_bytes : List ℕ → ℕ
set_bytes [] = 0
set_bytes (b ∷ bs) = b * 256 ^ length bs + set_bytes bs
