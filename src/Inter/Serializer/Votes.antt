-- ===== src/Inter/Serializer/Votes.antt =====
-- inter/event_serializer.go: the votes that are written are read back.
use go_opera.Base.{ℕ, ◌/◌, ◌^◌, ◌≤◌, ◌<◌, ◌≡◌, refl, arith}
use go_opera.Base.{List, [], ◌∷◌, All, length, ltb, u32, false}
use go_opera.Inter.Llr.{LlrBlockVotes, LlrEpochVote}
use go_opera.Inter.Serializer.{max_msg_size, write_hashes, read_hashes, marshal_block_votes}
use go_opera.Inter.Serializer.{unmarshal_block_votes, marshal_epoch_vote, unmarshal_epoch_vote}
use go_opera.Utils.Cser.{read_u32, write_u32}
use go_opera.Utils.Cser.Arrays.{array-Coded}
use go_opera.Utils.Cser.Codec.{Coded, Coded-then, Coded-post, Coded-pure}
use go_opera.Utils.Cser.Fields.{u32-Coded, u64-Coded}

abbrev pub IsHash : ℕ → Type 0
IsHash h = h < 256 ^ 32

pub hashes-Coded :
    (hs : List ℕ) → All IsHash hs → Coded (λ w. write_hashes w hs) (read_hashes (length hs)) hs
unfolding write_hashes read_hashes
hashes-Coded [] h = Coded-pure []
hashes-Coded (x ∷ xs) (h, hs) =
    Coded-then _ (array-Coded 32 x h) (Coded-post _ (hashes-Coded xs hs) (λ r. refl))

pub record IsBlockVotes (bvs : LlrBlockVotes) : Type 0 where
  pub start_lt : bvs.start < 2 ^ 64
  pub epoch_lt : bvs.epoch < 2 ^ 32
  pub votes_le : length bvs.votes ≤ max_msg_size / 32
  pub votes_IsHash : All IsHash bvs.votes

pub block_votes-Coded :
    (bvs : LlrBlockVotes)
    → IsBlockVotes bvs
    → Coded (marshal_block_votes bvs) unmarshal_block_votes bvs
unfolding marshal_block_votes unmarshal_block_votes
block_votes-Coded bvs v =
    let k = length bvs.votes in
    let few : u32 k ≡ k = omega (arith, v.votes_le) in
    let allowed : ltb (max_msg_size / 32) k ≡ false = ground (arith, v.votes_le) in
    let count : Coded (λ w. write_u32 w (u32 k)) read_u32 k =
      rw few (u32-Coded k (omega (arith, v.votes_le))) in
    Coded-then _ (u64-Coded bvs.start v.start_lt) (
      Coded-then _ (u32-Coded bvs.epoch v.epoch_lt) (
        Coded-then _ count
          (rw allowed (Coded-post _ (hashes-Coded bvs.votes v.votes_IsHash) (λ r. refl)))))

pub epoch_vote-Coded :
    (ers : LlrEpochVote)
    → ers.epoch < 2 ^ 32
    → IsHash ers.vote
    → Coded (marshal_epoch_vote ers) unmarshal_epoch_vote ers
unfolding marshal_epoch_vote unmarshal_epoch_vote
epoch_vote-Coded ers epoch_lt vote_lt =
    Coded-then _ (u32-Coded ers.epoch epoch_lt)
      (Coded-post _ (array-Coded 32 ers.vote vote_lt) (λ r. refl))
