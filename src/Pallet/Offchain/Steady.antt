-- ===== src/Pallet/Offchain/Steady.antt =====
-- pallets/aggregator/src/lib.rs: the off-chain worker over consecutive blocks, when nothing stops it.
use native.Mathlib.Nat.{mod-eq_of_lt, suc-mul}
use substrate_aggregator.Prelude.{
  ℕ, zero, suc, ◌+◌, ◌-◌, ◌*◌, ◌≤◌, ◌<◌, ◌≡◌, refl, ap, ◌∙◌, Option, none, some, Bool, true, false,
  List, [], ◌∷◌, ◌++◌, arith, leb,
}
use substrate_aggregator.Pallet.Config.{Config}
use substrate_aggregator.Pallet.Offchain.{
  Run, done, NextTrigger, at_block, should_trigger_offchain, offchain_worker,
}
use substrate_aggregator.Pallet.Offchain.Trigger.{InRange, submitted_at, submission}

module _ {P : Type 0} (payload_at : ℕ → P) where
  -- The next `count` blocks: at each the lock is free, and a run submits what `payload_at` says.
  abbrev pub steady : (block count : ℕ) → List (ℕ × Bool × Run (Option P))
  steady block zero = []
  steady block (suc count) =
      (block, true, done (some (payload_at block))) ∷ steady (suc block) count

  steady-append :
      (block first count : ℕ)
      → steady block (first + count) ≡ steady block first ++ steady (first + block) count
  steady-append block zero count =
      let same : 0 + count ≡ count = omega arith in
      let from : block ≡ 0 + block = omega arith in
      ap (steady block) same ∙ ap (λ b. steady b count) from
  steady-append block (suc first) count =
      let sum : suc first + count ≡ suc (first + count) = omega arith in
      let from : first + suc block ≡ suc first + block = omega arith in
      ap (steady block) sum
      ∙ ap (λ runs. (block, true, done (some (payload_at block))) ∷ runs)
          (steady-append (suc block) first count
            ∙ ap (λ b. steady (suc block) first ++ steady b count) from)

  module _ (c : Config) where
    submitted_at-cons :
        (b : ℕ) (run : Run (Option P)) (runs : List (ℕ × Bool × Run (Option P)))
        (trigger : NextTrigger) {after : Option P × NextTrigger}
        → offchain_worker c b true run trigger ≡ after
        → submitted_at c ((b, true, run) ∷ runs) trigger
          ≡ submission c b (submitted_at c runs after.1) after.0
    unfolding submitted_at
    submitted_at-cons b run runs trigger e =
        ap (λ x. submission c b (submitted_at c runs x.1) x.0) e

    steady-idle :
        (block count next : ℕ) (later : List (ℕ × Bool × Run (Option P)))
        → block + count ≤ next
        → submitted_at c (steady block count ++ later) (at_block next)
          ≡ submitted_at c later (at_block next)
    unfolding offchain_worker should_trigger_offchain
    steady-idle block zero next later h = refl
    steady-idle block (suc count) next later h =
        let early : leb next block ≡ false = ground arith in
        submitted_at-cons block (done (some (payload_at block))) (steady (suc block) count ++ later)
          (at_block next) {after = (none, at_block next)} (rw early refl)
        ∙ steady-idle (suc block) count next later (omega arith)

    -- A block at which the worker acts, and the blocks up to the next one.
    steady-round :
        (block rest : ℕ) (trigger : NextTrigger) (later : List (ℕ × Bool × Run (Option P)))
        → should_trigger_offchain block trigger ≡ true
        → c.offchain_trigger_delay ≡ suc rest
        → InRange c block
        → submitted_at c (steady block (suc rest) ++ later) trigger
          ≡ block ∷ submitted_at c later (at_block (block + c.offchain_trigger_delay))
    unfolding offchain_worker
    steady-round block rest trigger later acts delay fits =
        submitted_at-cons block (done (some (payload_at block))) (steady (suc block) rest ++ later)
          trigger {after = (some (payload_at block), at_block (block + c.offchain_trigger_delay))}
          (rw (acts, mod-eq_of_lt fits) refl)
        ∙ ap (λ others. block ∷ others) (steady-idle (suc block) rest _ later (omega arith))

-- The blocks from one on that are a step apart.
abbrev pub every : (step block count : ℕ) → List ℕ
every step block zero = []
every step block (suc count) = block ∷ every step (block + step) count

-- Let the lock be free and the runs submit at each block from one at which the worker acts on, let the
-- delay be positive, and let no next trigger wrap round. Then in any number of delays the worker submits
-- once in each, at the blocks that are a delay apart, and no trigger is ever missed.
pub submitted_at-every :
    {P : Type 0} (payload_at : ℕ → P) (c : Config) (count block : ℕ) (trigger : NextTrigger)
    → should_trigger_offchain block trigger ≡ true
    → 0 < c.offchain_trigger_delay
    → InRange c (block + count * c.offchain_trigger_delay)
    → submitted_at c (steady payload_at block (count * c.offchain_trigger_delay)) trigger
      ≡ every c.offchain_trigger_delay block count
unfolding submitted_at should_trigger_offchain
submitted_at-every payload_at c zero block trigger acts positive fits =
    let nothing : 0 * c.offchain_trigger_delay ≡ 0 = omega arith in
    ap (λ n. submitted_at c (steady payload_at block n) trigger) nothing
submitted_at-every payload_at c (suc count) block trigger acts positive fits =
    let delay = c.offchain_trigger_delay in
    let rest = delay - 1 in
    let product : suc count * delay ≡ suc rest + count * delay =
      omega (arith, suc-mul count delay) in
    let from : suc rest + block ≡ block + delay = omega arith in
    let reached : leb (block + delay) (block + delay) ≡ true = ground arith in
    ap (λ n. submitted_at c (steady payload_at block n) trigger) product
    ∙ ap (λ runs. submitted_at c runs trigger)
        (steady-append payload_at block (suc rest) (count * delay))
    ∙ steady-round payload_at c block rest trigger _ acts (omega arith) (omega (arith, product))
    ∙ ap
        (λ b.
          block ∷ submitted_at c (steady payload_at b (count * delay)) (at_block (block + delay)))
        from
    ∙ ap (λ others. block ∷ others)
        (submitted_at-every payload_at c count (block + delay) (at_block (block + delay)) reached
          positive (omega (arith, product)))
