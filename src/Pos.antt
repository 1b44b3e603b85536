-- ===== src/Pos.antt =====
-- The validators group `pos.Validators` of lachesis-base, which the repository only calls: its
-- methods, as a record that the modelled code takes as an argument. `get_idx` of an absent
-- validator is the zero index, as a Go map read gives.
use go_opera.Base.{ℕ, ◌≡◌, ◌<◌, Bool, true, ◌+◌, zero, suc}

pub record Validators : Type 0 where
  pub len : ℕ
  pub exists : ℕ → Bool
  pub get_idx : ℕ → ℕ
  pub get_id : ℕ → ℕ
  pub get : ℕ → ℕ
  pub get_weight_by_idx : ℕ → ℕ
  pub total_weight : ℕ

-- The weights of the first `n` indices, added up.
abbrev pub weight_sum : (ℕ → ℕ) → ℕ → ℕ
weight_sum w zero = 0
weight_sum w (suc n) = weight_sum w n + w n

-- What the code relies on: an existing validator has an index of its own within the group, and the
-- total is the sum of the weights, kept within 32 bits by the builder.
pub record IsGroup (v : Validators) : Type 0 where
  pub idx_in_range : (id : ℕ) → v.exists id ≡ true → v.get_idx id < v.len
  pub id_of_idx : (id : ℕ) → v.exists id ≡ true → v.get_id (v.get_idx id) ≡ id
  pub idx_of_id : (i : ℕ) → i < v.len → v.get_idx (v.get_id i) ≡ i
  pub id_exists : (i : ℕ) → i < v.len → v.exists (v.get_id i) ≡ true
  pub total : v.total_weight ≡ weight_sum v.get_weight_by_idx v.len
  pub total_u32 : v.total_weight < 4294967296
