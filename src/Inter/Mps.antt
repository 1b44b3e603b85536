-- ===== src/Inter/Mps.antt =====
-- inter/inter_mps.go: misbehaviour proofs. An array of two is a record with two fields.
use go_opera.Base.{ℕ, Option, Bool, get_elem?, sub64}
use go_opera.Inter.Llr.{SignedEventLocator, LlrSignedBlockVotes, LlrSignedEpochVote}

pub record Pair (A : Type 0) : Type 0 where
  pub fst : A
  pub snd : A

pub record EventsDoublesign : Type 0 where
  pub pair : Pair SignedEventLocator

pub record BlockVoteDoublesign : Type 0 where
  pub block : ℕ
  pub pair : Pair LlrSignedBlockVotes

-- `p.Pair[i].Val.Votes[p.Block-p.Pair[i].Val.Start]`, given the pair's element. An index out of
-- range is a panic, here `none`.
unfoldable pub get_vote : ℕ → LlrSignedBlockVotes → Option ℕ
get_vote block p = get_elem? p.val.votes (sub64 block p.val.start)

pub record WrongBlockVote : Type 0 where
  pub block : ℕ
  pub pals : Pair LlrSignedBlockVotes
  pub wrong_epoch : Bool

pub record EpochVoteDoublesign : Type 0 where
  pub pair : Pair LlrSignedEpochVote

pub record WrongEpochVote : Type 0 where
  pub pals : Pair LlrSignedEpochVote

-- Each field is a pointer, and `none` is nil.
pub record MisbehaviourProof : Type 0 where
  pub events_doublesign : Option EventsDoublesign
  pub block_vote_doublesign : Option BlockVoteDoublesign
  pub wrong_block_vote : Option WrongBlockVote
  pub epoch_vote_doublesign : Option EpochVoteDoublesign
  pub wrong_epoch_vote : Option WrongEpochVote
