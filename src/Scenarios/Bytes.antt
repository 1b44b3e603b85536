-- ===== src/Scenarios/Bytes.antt =====
-- Bitmaps and the bytes of a log.
use go_opera.Base.{
  refl, ℕ, zero, suc, some-injective, ◌+◌, ◌<◌, List, [], ◌∷◌, ◌++◌, false, ◌≡◌, arith, nat_beq,
  leb, length,
}
use go_opera.Base.{some, none, ok, ◌||◌, ◌&&◌, if◌then◌else◌, take, drop, replicate, lookup, nat_eq}
use go_opera.Base.{get_elem?, IsU64}
use go_opera.Utils.Bitmap.{new, put, del, member}
use go_opera.Utils.Bitmap.Laws.{IsBitmap, put_lem, del_lem, new_lem}
use go_opera.Opera.Driver.{set_bytes, DriverAbi, Log}
use go_opera.Gossip.BlockProc.DriverTxs
use go_opera.Gossip.BlockProc.DriverTxs.{Listener, on_pub_key, on_rules, on_advance_epochs, advance}
use go_opera.Gossip.BlockProc.DriverTxs.Limits.{IsLimited, on_new_logs, on_new_logs-IsLimited}
use go_opera.Scenarios.{block_state, epoch_state}
use go_opera.Inter.BlockProc.{Profile}
use go_opera.Gossip.BlockProc.DriverTxs.{update_weight, decode_data_bytes}
use go_opera.Gossip.BlockProc.DriverTxs.Laws.{
  weighted, lookup-update_weight, offset_of, size_of, decode_data_bytes_lem,
}

-- The set of 3 and 9, with room for 12.
abbrev three_nine : List ℕ
three_nine = 8 ∷ 2 ∷ []

below : (i y : ℕ) → get_elem? three_nine i ≡ some y → y < 256
below zero y h = omega (arith, some-injective h)
below (suc zero) y h = omega (arith, some-injective h)
below (suc (suc i)) y h = absurd (cc)

three_nine-IsBitmap : IsBitmap three_nine 12
three_nine-IsBitmap = record { bytes = below; room = omega arith }

put_lem_example :
    (t : List ℕ) × (put three_nine 11 ≡ ok t)
    × IsBitmap t 12
    × ((j : ℕ) → member t j ≡ (nat_beq 11 j || member three_nine j))
put_lem_example = put_lem three_nine 11 12 three_nine-IsBitmap (omega arith)

del_lem_example :
    (t : List ℕ) × (del three_nine 9 ≡ ok t)
    × IsBitmap t 12
    × ((j : ℕ) → member t j ≡ (if nat_beq 9 j then false else member three_nine j))
del_lem_example = del_lem three_nine 9 12 three_nine-IsBitmap (omega arith)

new_lem_example : IsBitmap (new 12) 12 × ((j : ℕ) → member (new 12) j ≡ false)
new_lem_example = new_lem 12

abbrev profiles : List (ℕ × Profile)
profiles = (1, record { weight = 7; pub_key = record { key_type = 192; raw = 9 ∷ [] } }) ∷ []

lookup-update_weight_example :
    lookup 1 (update_weight profiles 1 8)
    ≡ (if nat_beq 1 1 then weighted (lookup 1 profiles) 8 else lookup 1 profiles)
lookup-update_weight_example = lookup-update_weight profiles 1 8 1

-- A word with the offset 32, a word with the size 2, and the bytes 5 and 6.
abbrev two_bytes : List ℕ
two_bytes = replicate {A = ℕ} 31 0 ++ (32 ∷ replicate {A = ℕ} 31 0 ++ (2 ∷ 5 ∷ 6 ∷ []))

two_bytes_fit : IsU64 (offset_of two_bytes + 32 + size_of two_bytes)
unfolding set_bytes
two_bytes_fit = omega arith

decode_data_bytes_lem_example : decode_data_bytes two_bytes ≡ (
    if leb 32 (length two_bytes)
      && leb (offset_of two_bytes + 32 + size_of two_bytes) (length two_bytes)
    then ok (some (take (size_of two_bytes) (drop (offset_of two_bytes + 32) two_bytes)))
    else ok none)
decode_data_bytes_lem_example = decode_data_bytes_lem two_bytes two_bytes_fit

abbrev abi : DriverAbi
abi = record {
  contract_address = 1;
  update_validator_weight = 11;
  update_validator_pubkey = 12;
  update_network_rules = 13;
  update_network_version = 14;
  advance_epochs = 15;
}

abbrev listener : Listener
listener = record {
  block = record { idx = 7; time = 110; atropos = 67 };
  es = epoch_state;
  bs = block_state;
}

-- 2^24 - 1 epochs are to be advanced.
abbrev advance_log : Log
advance_log = record {
  address = 1;
  topics = 15 ∷ [];
  data_bytes = replicate {A = ℕ} 29 0 ++ (255 ∷ 255 ∷ 255 ∷ []);
}

abbrev limited : Listener
limited = record listener { bs = record block_state { advance_epochs = 65536 } }

advanced : on_new_logs abi (λ rules diff. none) listener (advance_log ∷ []) ≡ ok limited
unfolding on_new_logs DriverTxs.on_new_log on_pub_key on_rules on_advance_epochs advance set_bytes
advanced = refl

on_new_logs-IsLimited_example : IsLimited limited
on_new_logs-IsLimited_example =
    on_new_logs-IsLimited abi (λ rules diff. none) listener limited (advance_log ∷ []) (omega arith)
      advanced
