-- ===== src/Inter/Llr.antt =====
-- inter/event.go (locators) and inter/inter_llr.go (block and epoch votes). Hashes and
-- identifiers are numbers, and the zero hash is 0.
use go_opera.Base.{ℕ, ◌+◌, List, Bool, ◌&&◌, nat_beq, length, u64, sub64}

pub record EventLocator : Type 0 where
  pub base_hash : ℕ
  pub net_fork_id : ℕ
  pub epoch : ℕ
  pub seq : ℕ
  pub lamport : ℕ
  pub creator : ℕ
  pub payload_hash : ℕ

-- `==` of two locator structs.
unfoldable pub locator_eq : EventLocator → EventLocator → Bool
locator_eq a b =
    nat_beq a.base_hash b.base_hash
    && (nat_beq a.net_fork_id b.net_fork_id
        && (nat_beq a.epoch b.epoch
            && (nat_beq a.seq b.seq
                && (nat_beq a.lamport b.lamport
                    && (nat_beq a.creator b.creator && nat_beq a.payload_hash b.payload_hash)))))

pub record SignedEventLocator : Type 0 where
  pub locator : EventLocator
  pub sig : List ℕ

pub record LlrBlockVotes : Type 0 where
  pub start : ℕ
  pub epoch : ℕ
  pub votes : List ℕ

-- `bvs.Start + idx.Block(len(bvs.Votes)) - 1`
unfoldable pub last_block : LlrBlockVotes → ℕ
last_block bvs = sub64 (u64 (bvs.start + length bvs.votes)) 1

pub record LlrEpochVote : Type 0 where
  pub epoch : ℕ
  pub vote : ℕ

unfoldable pub epoch_vote_eq : LlrEpochVote → LlrEpochVote → Bool
epoch_vote_eq a b = nat_beq a.epoch b.epoch && nat_beq a.vote b.vote

pub record LlrSignedBlockVotes : Type 0 where
  pub signed : SignedEventLocator
  pub txs_and_misbehaviour_proofs_hash : ℕ
  pub epoch_vote_hash : ℕ
  pub val : LlrBlockVotes

pub record LlrSignedEpochVote : Type 0 where
  pub signed : SignedEventLocator
  pub txs_and_misbehaviour_proofs_hash : ℕ
  pub block_votes_hash : ℕ
  pub val : LlrEpochVote
