-- ===== src/Inter/Serializer.antt =====
-- inter/event_serializer.go: block and epoch votes as bytes.
pub mod Votes
pub mod Events
pub mod Binary
pub mod Transactions
pub mod Payloads
use go_opera.Base.{ℕ, zero, suc, ◌*◌, ◌/◌, List, [], ◌∷◌, if◌then◌else◌, ltb, length, u32}
use go_opera.Base.{Result, ok, err, ◌>>=◌, too_large_alloc}
use go_opera.Inter.Llr.{LlrBlockVotes, LlrEpochVote}
use go_opera.Utils.Cser.{Writer, Reader, read_u32, write_u32, read_u64, write_u64}
use go_opera.Utils.Cser.Arrays.{write_array, read_array}

-- `ProtocolMaxMsgSize`
abbrev pub max_msg_size : ℕ
max_msg_size = 10 * 1024 * 1024

-- `for _, r := range bvs.Votes { w.FixedBytes(r[:]) }`
unfoldable pub write_hashes : Writer → List ℕ → Result Writer
write_hashes w [] = ok w
write_hashes w (h ∷ hs) = do w' ← write_array 32 w h; write_hashes w' hs

unfoldable pub read_hashes : ℕ → Reader → Result (List ℕ × Reader)
read_hashes zero r = ok ([], r)
read_hashes (suc n) r = do (h, r1) ← read_array 32 r; (hs, r2) ← read_hashes n r1; ok (h ∷ hs, r2)

unfoldable pub marshal_block_votes : LlrBlockVotes → Writer → Result Writer
marshal_block_votes bvs w = do
  w1 ← write_u64 w bvs.start
  w2 ← write_u32 w1 bvs.epoch
  w3 ← write_u32 w2 (u32 (length bvs.votes))
  write_hashes w3 bvs.votes

unfoldable pub unmarshal_block_votes : Reader → Result (LlrBlockVotes × Reader)
unmarshal_block_votes r = do
  (start, r1) ← read_u64 r
  (epoch, r2) ← read_u32 r1
  (num, r3) ← read_u32 r2
  if ltb (max_msg_size / 32) num then err too_large_alloc else (do
    (records, r4) ← read_hashes num r3
    ok (record { start = start; epoch = epoch; votes = records }, r4))

unfoldable pub marshal_epoch_vote : LlrEpochVote → Writer → Result Writer
marshal_epoch_vote ers w = do w1 ← write_u32 w ers.epoch; write_array 32 w1 ers.vote

unfoldable pub unmarshal_epoch_vote : Reader → Result (LlrEpochVote × Reader)
unmarshal_epoch_vote r = do
  (epoch, r1) ← read_u32 r
  (vote, r2) ← read_array 32 r1
  ok (record { epoch = epoch; vote = vote }, r2)
