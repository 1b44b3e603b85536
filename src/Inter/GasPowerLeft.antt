-- ===== src/Inter/GasPowerLeft.antt =====
-- inter/gas_power_left.go: the short-term and the long-term gas power that a validator has left.
use go_opera.Base.{ℕ, ◌+◌, if◌then◌else◌, ltb, u64, sub64}

-- `Gas[ShortTermGas]` and `Gas[LongTermGas]`.
pub record GasPowerLeft : Type 0 where
  pub short : ℕ
  pub long : ℕ

-- `Gas[i]` for the index of a gas power config.
pub data GasConfigIdx : Type 0 where
  short_term_gas long_term_gas : GasConfigIdx

abbrev pub gas_at : GasPowerLeft → GasConfigIdx → ℕ
gas_at g short_term_gas = g.short
gas_at g long_term_gas = g.long

-- The loop keeps the smaller of the value so far and the next one, from `Gas[0]` on.
min_step : ℕ → ℕ → ℕ
min_step m gas = if ltb gas m then gas else m

max_step : ℕ → ℕ → ℕ
max_step m gas = if ltb m gas then gas else m

unfoldable pub min : GasPowerLeft → ℕ
unfolding min_step
min g = min_step (min_step g.short g.short) g.long

unfoldable pub max : GasPowerLeft → ℕ
unfolding max_step
max g = max_step (max_step g.short g.short) g.long

unfoldable pub sub : GasPowerLeft → ℕ → GasPowerLeft
sub g diff = record { short = sub64 g.short diff; long = sub64 g.long diff }

-- `Add` has a value receiver, but assigns to the elements of an array that was copied with it:
-- the caller's value stays as it was.
unfoldable pub add : GasPowerLeft → ℕ → GasPowerLeft
add g diff =
    let copied : GasPowerLeft = record {
      short = u64 (g.short + diff);
      long = u64 (g.long + diff);
    } in
    g
