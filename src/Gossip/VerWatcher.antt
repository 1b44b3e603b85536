-- ===== src/Gossip/VerWatcher.antt =====
-- gossip/blockproc/verwatcher/version_watcher.go: the network version that the node has seen.
use go_opera.Base.{ℕ, ◌&&◌, if◌then◌else◌, leb, ltb, nat_beq, nat_bne, length, take, drop, u64}
use go_opera.Base.{Result, ok, Option, some, none, expect, ◌>>=◌, get_elem?}
use go_opera.Opera.Driver.{Log, DriverAbi, set_bytes}

-- `OnNewLog`: the new network version. A log of the Driver with no topic is a panic.
unfoldable pub on_new_log : DriverAbi → ℕ → Log → Result ℕ
unfolding set_bytes
on_new_log abi network_version l =
    if nat_bne l.address abi.contract_address then ok network_version else do
      topic ← expect (get_elem? l.topics 0)
      ok (
          if nat_beq topic abi.update_network_version && leb 32 (length l.data_bytes)
          then u64 (set_bytes (take 8 (drop 24 l.data_bytes)))
          else network_version)

-- Why a node is paused: a newer network version, or one that it missed.
pub data PauseReason : Type 0 where
  upgrade_activated missed_version : PauseReason

unfoldable pub pause : (network_version current_version missed : ℕ) → Option PauseReason
pause network_version current_version missed =
    if ltb current_version network_version
    then some PauseReason.upgrade_activated
    else if ltb 0 missed
    then some PauseReason.missed_version
    else none
