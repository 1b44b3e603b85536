-- ===== src/Gossip/Llr/Ballots.antt =====
-- Runs of LLR block votes of one group of validators, in any order, with evictions and flushes of
-- the vote weights between them, and the list of the votes that a run has.
use go_opera.Base.{
  ℕ, suc, ◌+◌, ◌<◌, List, [], ◌∷◌, ◌++◌, Bool, false, ◌||◌, ◌&&◌, ◌≡◌, refl, sym, ap, ◌∙◌,
}
use go_opera.Base.{nat_beq, u64, ok, arith}
use go_opera.Pos.{Validators}
use go_opera.Inter.Llr.{LlrBlockVotes}
use go_opera.Gossip.VotesIndex.{VotesCacheId, VotesIndex, id_eq, evict, flush_mutated}
use go_opera.Gossip.Store.{Store}
use go_opera.Gossip.Llr.{process_block_vote}
use mathlib.Core.List.{append_assoc, append-nil}

-- A store with another index of block votes.
abbrev pub with_index : Store → VotesIndex → Store
with_index s ix = record s { block_votes_index = ix }

pub data Step (vals : Validators) (s t : Store) : Type 0 where
  vote :
      (block epoch bv val : ℕ)
      → val < vals.len
      → process_block_vote s block epoch bv val vals ≡ ok t
      → Step vals s t
  evicted : (k : VotesCacheId) → t ≡ with_index s (evict s.block_votes_index k) → Step vals s t
  flushed : t ≡ with_index s (flush_mutated s.block_votes_index) → Step vals s t
  -- Anything else that the node writes.
  elsewhere :
      t.block_votes_index ≡ s.block_votes_index → t.block_results ≡ s.block_results → Step vals s t

pub data Run (vals : Validators) (s : Store) : Store → Type 0 where
  here : Run vals s s
  next : {t u : Store} → Run vals s t → Step vals t u → Run vals s u

-- The vote of the validator with index `val`: its hash for a block, in an epoch.
pub record Ballot : Type 0 where
  pub key : VotesCacheId
  pub val : ℕ

abbrev pub ballots_of : {vals : Validators} {s t : Store} → Step vals s t → List Ballot
ballots_of (vote block epoch bv val h e) =
    record { key = record { block = block; epoch = epoch; v = bv }; val = val } ∷ []
ballots_of (evicted k e) = []
ballots_of (flushed e) = []
ballots_of (elsewhere e f) = []

-- The votes of a run in their order.
abbrev pub ballots : {vals : Validators} {s t : Store} → Run vals s t → List Ballot
ballots here = []
ballots (next run step) = ballots run ++ ballots_of step

-- The validator with index `i` is among those that voted for the hash of `k`.
abbrev pub gave : List Ballot → VotesCacheId → ℕ → Bool
gave [] k i = false
gave (b ∷ bs) k i = (id_eq b.key k && nat_beq b.val i) || gave bs k i

pub gave-append :
    (xs bs : List Ballot) (k : VotesCacheId) (i : ℕ)
    → gave (xs ++ bs) k i ≡ (gave xs k i || gave bs k i)
gave-append [] bs k i = refl
gave-append (x ∷ xs) bs k i = ground (arith, gave-append xs bs k i)

-- One more step before a run.
pub prepend :
    (vals : Validators) (s t u : Store)
    → (step : Step vals s t) → (run : Run vals t u)
    → (all : Run vals s u) × (ballots all ≡ ballots_of step ++ ballots run)
prepend vals s t u step here = (next here step, sym (append-nil (ballots_of step)))
prepend vals s t u step (next {t = v} run last) =
    let (all, same) = prepend vals s t v step run in
    (
      next all last,
      ap (λ bs. bs ++ ballots_of last) same
          ∙ append_assoc (ballots_of step) (ballots run) (ballots_of last),
    )

-- The votes that a record casts, the one at position `j` for the block `j` above its first one.
abbrev pub ballots_from : (start epoch val j : ℕ) → List ℕ → List Ballot
ballots_from start epoch val j [] = []
ballots_from start epoch val j (bv ∷ votes) =
    record { key = record { block = u64 (start + j); epoch = epoch; v = bv }; val = val }
    ∷ ballots_from start epoch val (suc j) votes

abbrev pub record_ballots : LlrBlockVotes → ℕ → List Ballot
record_ballots bvs val = ballots_from bvs.start bvs.epoch val 0 bvs.votes
