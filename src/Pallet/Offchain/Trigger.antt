-- ===== src/Pallet/Offchain/Trigger.antt =====
-- pallets/aggregator/src/lib.rs: when the off-chain worker runs.
use native.Mathlib.Nat.{mod-eq_of_lt}
use substrate_aggregator.Prelude.{
  ℕ, ◌+◌, ◌^◌, ◌≤◌, ◌<◌, ◌≡◌, ◌≢◌, ◌↔◌, refl, sym, subst, Option, none, some, Bool, true, false,
  List, [], ◌∷◌, arith, All, All-map, if◌then◌else◌,
}
use substrate_aggregator.Pallet.Config.{Config, add_blocks}
use substrate_aggregator.Pallet.Offchain.{
  Run, done, failed, panicked, NextTrigger, unset, at_block, unreadable, should_trigger_offchain,
  offchain_worker, with_lock,
}

-- The block numbers whose next trigger does not wrap round.
abbrev pub InRange : Config → ℕ → Type 0
InRange c b = b + c.offchain_trigger_delay < 2 ^ c.block_bits

-- Each block is at least a delay later than those before it.
abbrev pub Spaced : Config → List ℕ → Type 0
Spaced c [] = Unit
Spaced c (b ∷ bs) = All (λ later. b + c.offchain_trigger_delay ≤ later) bs × Spaced c bs

-- No block is before the trigger.
abbrev After : NextTrigger → List ℕ → Type 0
After unset bs = Unit
After (at_block n) bs = All (λ b. n ≤ b) bs
After unreadable bs = Unit

After-nil : (trigger : NextTrigger) → After trigger []
After-nil unset = tt
After-nil (at_block n) = tt
After-nil unreadable = tt

triggered-After :
    (c : Config) (b : ℕ) (trigger : NextTrigger) (bs : List ℕ)
    → should_trigger_offchain b trigger ≡ true
    → All (λ later. b + c.offchain_trigger_delay ≤ later) bs
    → After trigger bs × After trigger (b ∷ bs)
unfolding should_trigger_offchain
triggered-After c b unset bs e h = (tt, tt)
triggered-After c b unreadable bs e h = (tt, tt)
triggered-After c b (at_block n) bs e h =
    let before : n ≤ b = ground arith in
    let rest = All-map bs (λ x le. omega arith) h in (rest, (before, rest))

reached_iff : (n b : ℕ) → (should_trigger_offchain b (at_block n) ≡ true) ↔ (n ≤ b)
unfolding should_trigger_offchain
reached_iff n b = (λ h. ground arith, λ h. ground arith)

module _ {P : Type 0} (c : Config) where
  -- What one run leaves: the trigger it found, or, if the trigger let it run, one that is a delay later
  -- than the block. It submits only in the second case.
  data Left (b : ℕ) (trigger : NextTrigger) : Option P × NextTrigger → Type 0 where
    untouched : Left b trigger (none, trigger)
    bumped :
        (submitted : Option P)
        → should_trigger_offchain b trigger ≡ true
        → Left b trigger (submitted, at_block (b + c.offchain_trigger_delay))

  offchain_worker-Left :
      (b : ℕ) (free : Bool) (run : Run (Option P)) (trigger : NextTrigger)
      → InRange c b
      → Left b trigger (offchain_worker c b free run trigger)
  unfolding offchain_worker
  offchain_worker-Left b free run trigger fits = by_trigger (should_trigger_offchain b trigger) refl
    where
      by_lock :
          (free : Bool) (run : Run (Option P))
          → should_trigger_offchain b trigger ≡ true
          → Left b trigger (with_lock free run (at_block (b + c.offchain_trigger_delay)) trigger)
      by_lock true (done submitted) e = bumped submitted e
      by_lock true (failed f) e = bumped none e
      by_lock true panicked e = untouched
      by_lock false run e = untouched

      by_trigger :
          (triggers : Bool)
          → should_trigger_offchain b trigger ≡ triggers
          → Left b trigger (
              if triggers
              then with_lock free run (at_block (add_blocks c b c.offchain_trigger_delay)) trigger
              else (none, trigger))
      by_trigger false e = untouched
      by_trigger true e =
          subst (λ n. Left b trigger (with_lock free run (at_block n) trigger))
            (sym (mod-eq_of_lt fits)) (by_lock free run e)

  abbrev pub submission : ℕ → List ℕ → Option P → List ℕ
  submission b later none = later
  submission b later (some _) = b ∷ later

  -- The worker at a sequence of blocks, each with its lock and its run, where each call of it ends
  -- before the next begins, so that it finds the trigger that the one before left: the blocks at
  -- which it submits.
  unfoldable pub submitted_at : List (ℕ × Bool × Run (Option P)) → NextTrigger → List ℕ
  submitted_at [] trigger = []
  submitted_at ((b, free, run) ∷ runs) trigger =
      let (submitted, left) = offchain_worker c b free run trigger in
      let later = submitted_at runs left in elim submitted [ none ↦ later | some _ ↦ b ∷ later ]

  Left-Spaced :
      (b : ℕ) (trigger : NextTrigger) (after : Option P × NextTrigger) (later : List ℕ)
      → Left b trigger after
      → Spaced c later × After after.1 later
      → Spaced c (submission b later after.0) × After trigger (submission b later after.0)
  Left-Spaced b trigger after later untouched h = h
  Left-Spaced b trigger after later (bumped none e) (spaced, h) =
      (spaced, (triggered-After c b trigger later e h).0)
  Left-Spaced b trigger after later (bumped (some p) e) (spaced, h) =
      ((h, spaced), (triggered-After c b trigger later e h).1)

  submitted_at-After :
      (runs : List (ℕ × Bool × Run (Option P))) (trigger : NextTrigger)
      → All (λ r. InRange c r.0) runs
      → Spaced c (submitted_at runs trigger) × After trigger (submitted_at runs trigger)
  unfolding submitted_at
  submitted_at-After [] trigger fits = (tt, After-nil trigger)
  submitted_at-After ((b, free, run) ∷ runs) trigger (fit, fits) =
      Left-Spaced b trigger (offchain_worker c b free run trigger) _
        (offchain_worker-Left b free run trigger fit)
        (submitted_at-After runs (offchain_worker c b free run trigger).1 fits)

  -- If each call of the worker ends before the next begins, and no next trigger wraps round, then two
  -- submissions are at least the trigger's delay apart, at whatever blocks the worker is called,
  -- whether each call finds the lock free, and however its run ends. (Calls that overlap are not covered.)
  pub submitted_at-Spaced :
      (runs : List (ℕ × Bool × Run (Option P))) (trigger : NextTrigger)
      → All (λ r. InRange c r.0) runs
      → Spaced c (submitted_at runs trigger)
  submitted_at-Spaced runs trigger fits = (submitted_at-After runs trigger fits).0

  -- After a run under the lock that does not panic, the worker acts again at a block exactly if the delay
  -- is over by then.
  pub should_trigger_offchain-after_iff :
      (b later : ℕ) (run : Run (Option P)) (trigger : NextTrigger)
      → InRange c b
      → should_trigger_offchain b trigger ≡ true
      → run ≢ panicked
      → (should_trigger_offchain later (offchain_worker c b true run trigger).1 ≡ true)
        ↔ (b + c.offchain_trigger_delay ≤ later)
  unfolding offchain_worker
  should_trigger_offchain-after_iff b later (done p) trigger fits e ends =
      rw (e, mod-eq_of_lt fits) (reached_iff (b + c.offchain_trigger_delay) later)
  should_trigger_offchain-after_iff b later (failed f) trigger fits e ends =
      rw (e, mod-eq_of_lt fits) (reached_iff (b + c.offchain_trigger_delay) later)
  should_trigger_offchain-after_iff b later panicked trigger fits e ends = absurd (ends refl)
