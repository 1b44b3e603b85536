-- ===== src/Gossip/BlockProc/Sealer/Laws.antt =====
-- What sealing an epoch promises of the states of the next one.
use go_opera.Base.{ok-injective}
use go_opera.Base.{ℕ, ◌+◌, ◌-◌, ◌<◌, ◌≤◌, List, [], map, true, ◌≡◌}
use go_opera.Base.{if◌then◌else◌, ltb, u32, length, get_elem?, refl, sym, ap, ◌∙◌, arith}
use go_opera.Base.{some, none, ok, ◌⊎◌, ◌↔◌}
use go_opera.Base.{length-map}
use go_opera.Pos.{Validators, IsGroup}
use go_opera.Opera.{Rules}
use go_opera.Inter.BlockProc.{
  BlockCtx, BlockState, EpochState, ValidatorBlockState, ValidatorEpochState,
}
use go_opera.Gossip.BlockProc.Sealer.{Sealer, start, epoch_sealing, seal_epoch, rules_after}
use mathlib.Core.Path.{subst}
use go_opera.Gossip.BlockProc.Sealer.States.{IsSealable, NextStates, states_from_lem, pair_at}

-- The states after the end of an epoch.
pub record EpochSealed (build : List (ℕ × ℕ) → Validators) (s : Sealer) (bs : BlockState)
    (es : EpochState) : Type 0 where
  pub validators : es.validators ≡ build (map (λ p. (p.0, p.1.weight)) s.bs.next_validator_profiles)
  pub block_states : length bs.validator_states ≡ es.validators.len
  pub epoch_states : length es.validator_states ≡ es.validators.len
  pub each :
      (j : ℕ) (vb : ValidatorBlockState) (ve : ValidatorEpochState)
      → get_elem? bs.validator_states j ≡ some vb
      → get_elem? es.validator_states j ≡ some ve
      → NextStates s (es.validators.get_id j) (vb, ve)
  pub no_gas : bs.epoch_gas ≡ 0
  pub no_cheaters : (bs.epoch_cheaters ≡ []) × (bs.cheaters_written ≡ 0)
  pub rules_changed : (r : Rules) → s.bs.dirty_rules ≡ some r → es.rules ≡ r
  pub rules_kept : s.bs.dirty_rules ≡ none → es.rules ≡ s.es.rules
  pub no_dirty_rules : bs.dirty_rules ≡ none
  pub profiles : es.validator_profiles ≡ s.bs.next_validator_profiles
  pub state_root : es.epoch_state_root ≡ s.bs.finalized_state_root
  pub advance : bs.advance_epochs ≡ s.bs.advance_epochs - 1
  pub times : (es.prev_epoch_start ≡ s.es.epoch_start) × (es.epoch_start ≡ s.block.time)
  pub next_epoch : es.epoch ≡ u32 (s.es.epoch + 1)

abbrev next_block_state : Sealer → List (ValidatorBlockState × ValidatorEpochState) → BlockState
next_block_state s ps = record s.bs {
  validator_states = map (λ p. p.0) ps;
  dirty_rules = none;
  epoch_gas = 0;
  epoch_cheaters = [];
  cheaters_written = 0;
  advance_epochs =
      if ltb 0 s.bs.advance_epochs then s.bs.advance_epochs - 1 else s.bs.advance_epochs;
}

abbrev next_epoch_state :
    Sealer → Validators → List (ValidatorBlockState × ValidatorEpochState) → EpochState
next_epoch_state s new_validators ps = record s.es {
  validators = new_validators;
  validator_profiles = s.bs.next_validator_profiles;
  validator_states = map (λ p. p.1) ps;
  prev_epoch_start = s.es.epoch_start;
  epoch_start = s.block.time;
  rules = rules_after s.bs.dirty_rules s.es.rules;
  epoch_state_root = s.bs.finalized_state_root;
  epoch = u32 (s.es.epoch + 1);
}

decrement : (n : ℕ) → (if ltb 0 n then n - 1 else n) ≡ n - 1
decrement n = ground arith

-- Sealing an epoch never panics when the block state has one state for each validator of the
-- epoch's group. The next states have one for each validator of the next group: a newcomer starts
-- with nothing at the sealing block, and a validator that stays keeps its own state from the old
-- group's index, with its refund and last event moved to the epoch's state and its uptime reset.
-- The epoch's gas and cheaters are cleared, the changed rules take effect, the epochs left to
-- advance go down by one, and the epoch's number goes up by one, modulo 2^32. The profiles of the
-- next validators and the state's root become the epoch's.
pub seal_epoch_lem :
    (build : List (ℕ × ℕ) → Validators) (s : Sealer)
    → IsSealable s
    → (bs : BlockState) × (es : EpochState) × (seal_epoch build s ≡ ok (bs, es))
      × EpochSealed build s bs es
unfolding seal_epoch
seal_epoch_lem build s sealable =
    let new_validators : Validators =
      build (map (λ p. (p.0, p.1.weight)) s.bs.next_validator_profiles) in
    let (ps, returns, len, each) = states_from_lem s new_validators new_validators.len 0 sealable in
    (
      next_block_state s ps,
      next_epoch_state s new_validators ps,
      rw returns refl,
      record {
        validators = refl;
        block_states = length-map ps (λ p. p.0) ∙ len;
        epoch_states = length-map ps (λ p. p.1) ∙ len;
        each = λ j vb ve h k.
            subst (λ i. NextStates s (new_validators.get_id i) (vb, ve)) (omega arith)
              (each j (vb, ve) (pair_at ps j vb ve h k));
        no_gas = refl;
        no_cheaters = (refl, refl);
        rules_changed = λ r dirty. rw dirty refl;
        rules_kept = λ clean. rw clean refl;
        no_dirty_rules = refl;
        profiles = refl;
        state_root = refl;
        advance = decrement s.bs.advance_epochs;
        times = (refl, refl);
        next_epoch = refl;
      },
    )

sealed_of :
    (build : List (ℕ × ℕ) → Validators) (s : Sealer) (bs : BlockState) (es : EpochState)
    → IsSealable s
    → seal_epoch build s ≡ ok (bs, es)
    → EpochSealed build s bs es
sealed_of build s bs es sealable h =
    let (bs', es', returns, sealed) = seal_epoch_lem build s sealable in
    subst (λ p. EpochSealed build s p.0 p.1) (ok-injective (sym returns ∙ h)) sealed

-- After an epoch was sealed, and before new events, the next one ends at a block, not older than
-- the sealing one, exactly if its rules give it no gas, or its time is over, or two epochs or more
-- were to be advanced.
pub epoch_sealing-seal_epoch :
    (build : List (ℕ × ℕ) → Validators) (s : Sealer) (block : BlockCtx) (bs : BlockState)
    (es : EpochState)
    → IsSealable s
    → seal_epoch build s ≡ ok (bs, es)
    → s.block.time ≤ block.time
    → block.time < 18446744073709551616
    → (epoch_sealing (start block bs es) ≡ true) ↔ (
        (es.rules.epochs.max_epoch_gas ≡ 0)
        ⊎ ((es.rules.epochs.max_epoch_duration ≤ block.time - s.block.time)
            ⊎ (2 ≤ s.bs.advance_epochs)))
unfolding epoch_sealing start
epoch_sealing-seal_epoch build s block bs es sealable h not_older small =
    let sealed = sealed_of build s bs es sealable h in
    ground (
      arith,
      sealed.no_gas,
      sealed.no_cheaters.0,
      sealed.advance,
      sealed.times.1,
      ap length sealed.no_cheaters.0,
    )

-- Epochs follow one another: if the builder makes a group of the next profiles, the sealed state
-- can be sealed in its turn.
pub seal_epoch-IsSealable :
    (build : List (ℕ × ℕ) → Validators) (s : Sealer) (block : BlockCtx) (bs : BlockState)
    (es : EpochState)
    → IsSealable s
    → IsGroup (build (map (λ p. (p.0, p.1.weight)) s.bs.next_validator_profiles))
    → seal_epoch build s ≡ ok (bs, es)
    → IsSealable (start block bs es)
unfolding start
seal_epoch-IsSealable build s block bs es sealable next_group h =
    let sealed = sealed_of build s bs es sealable h in
    record { group = rw sealed.validators next_group; states = sealed.block_states }
