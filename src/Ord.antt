-- ===== src/Ord.antt =====
-- The trait `Ord` of the language: what a key of a `BTreeMap` or an element of a `BTreeSet` has,
-- with the laws that the trait asks of `cmp`. `#[derive(Ord)]` compares fields lexicographically.
use Prim.Native.Nat.Ordering.{lt, eq, gt}
use substrate_aggregator.Prelude.{ℕ, Ordering, compare, ◌≡◌, refl, ◌↔◌, Bool, true, false, arith}

-- `Ordering::reverse`
abbrev pub reversed : Ordering → Ordering
reversed lt = gt
reversed eq = eq
reversed gt = lt

-- `Ordering::then`
abbrev pub then_with : Ordering → Ordering → Ordering
then_with eq second = second
then_with lt second = lt
then_with gt second = gt

pub record Lawful {ℓ} {K : Type ℓ} (cmp : K → K → Ordering) : Type ℓ where
  pub cmp_swap : (x y : K) → cmp y x ≡ reversed (cmp x y)
  pub lt_trans : (x y z : K) → cmp x y ≡ lt → cmp y z ≡ lt → cmp x z ≡ lt
  pub cmp_refl : (x : K) → cmp x x ≡ eq
  pub eq_of_cmp : (x y : K) → cmp x y ≡ eq → x ≡ y

pub record Ord {ℓ} (K : Type ℓ) : Type ℓ where
  pub cmp : K → K → Ordering
  pub lawful : Lawful cmp
  pub open lawful use *

-- `a == b` on keys
abbrev is_eq : Ordering → Bool
is_eq eq = true
is_eq lt = false
is_eq gt = false

infix 50 ◌==◌
abbrev pub ◌==◌ {ℓ} : {K : Type ℓ} ⦃o : Ord K⦄ → K → K → Bool
◌==◌ ⦃o⦄ a b = is_eq (o.cmp a b)

module _ {ℓ} {K : Type ℓ} ⦃o : Ord K⦄ where
  pub ==_iff : (a b : K) → ((a == b) ≡ true) ↔ (a ≡ b)
  ==_iff a b = (λ h. o.eq_of_cmp a b (ground arith), λ e. ground (arith, o.cmp_refl a))

  pub ==_refl : (a : K) → (a == a) ≡ true
  ==_refl a = (==_iff a a).1 refl

pub compare-Lawful : Lawful compare
compare-Lawful = ground arith

instance abbrev pub nat_ord : Ord ℕ
nat_ord = record { cmp = compare; lawful = compare-Lawful }

-- Tuples compare lexicographically.
module _ {K L : Type 0} ⦃o : Ord K⦄ ⦃q : Ord L⦄ where
  abbrev pub cmp_tuple : K × L → K × L → Ordering
  cmp_tuple a b = then_with (o.cmp a.0 b.0) (q.cmp a.1 b.1)

  pub tuple-Lawful : Lawful cmp_tuple
  tuple-Lawful = record {
    cmp_refl = λ a. ground (arith, o.cmp_refl a.0, q.cmp_refl a.1);
    eq_of_cmp = λ a b h.
        tuple_path (ground (arith, o.eq_of_cmp a.0 b.0)) (ground (arith, q.eq_of_cmp a.1 b.1));
    cmp_swap = λ a b. ground (arith, o.cmp_swap a.0 b.0, q.cmp_swap a.1 b.1);
    lt_trans = λ a b c. ground (
      arith,
      o.eq_of_cmp a.0 b.0,
      o.eq_of_cmp b.0 c.0,
      o.lt_trans a.0 b.0 c.0,
      q.lt_trans a.1 b.1 c.1,
    );
  }
    where
      tuple_path : {a b : K × L} → a.0 ≡ b.0 → a.1 ≡ b.1 → a ≡ b
      tuple_path p r = λ i. (p i, r i)

  instance abbrev pub tuple_ord : Ord (K × L)
  tuple_ord = record { cmp = cmp_tuple; lawful = tuple-Lawful }
