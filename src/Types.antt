-- ===== src/Types.antt =====
-- pallets/aggregator/src/types.rs: the types that the whole pallet shares.
pub mod Conversions
use Prim.Native.Nat.Ordering.{eq}
use substrate_aggregator.Prelude.{List, arith, Ordering}
use substrate_aggregator.Ord.{Ord, Lawful, then_with}

pub data Provider : Type 0 where
  crypto_compare : Provider

pub record Pair (C : Type 0) : Type 0 where
  pub source : C
  pub target : C

pub record ProviderPair (C : Type 0) : Type 0 where
  pub pair : Pair C
  pub provider : Provider

pub data Operation : Type 0 where
  add : Operation
  del : Operation

pub record ProviderPairOperation (C : Type 0) : Type 0 where
  pub provider_pair : ProviderPair C
  pub operation : Operation

-- A hop between two currencies, through a provider.
pub record PathStep (C A : Type 0) : Type 0 where
  pub pair : Pair C
  pub provider : Provider
  pub cost : A

pub record PricePath (C A : Type 0) : Type 0 where
  pub total_cost : A
  pub steps : List (PathStep C A)

pub data CalculatorError : Type 0 where
  negative_cycles_error : CalculatorError
  conversion_error : CalculatorError

-- The `Result` of a best path calculator.
pub data CalculatorResult (A : Type 0) : Type 0 where
  ok : A → CalculatorResult A
  err : CalculatorError → CalculatorResult A

-- The derived orders.
abbrev pub cmp_provider : Provider → Provider → Ordering
cmp_provider crypto_compare crypto_compare = eq

pub provider-Lawful : Lawful cmp_provider
provider-Lawful = ground arith

instance abbrev pub provider_ord : Ord Provider
provider_ord = record { cmp = cmp_provider; lawful = provider-Lawful }

module _ {C : Type 0} ⦃o : Ord C⦄ where
  abbrev pub cmp_pair : Pair C → Pair C → Ordering
  cmp_pair a b = then_with (o.cmp a.source b.source) (o.cmp a.target b.target)

  pub pair-Lawful : Lawful cmp_pair
  pair-Lawful = record {
    cmp_refl = λ a. ground (arith, o.cmp_refl a.source, o.cmp_refl a.target);
    eq_of_cmp = λ a b. ground (arith, o.eq_of_cmp a.source b.source, o.eq_of_cmp a.target b.target);
    cmp_swap = λ a b. ground (arith, o.cmp_swap a.source b.source, o.cmp_swap a.target b.target);
    lt_trans = λ a b c. ground (
      arith,
      o.eq_of_cmp a.source b.source,
      o.eq_of_cmp b.source c.source,
      o.lt_trans a.source b.source c.source,
      o.lt_trans a.target b.target c.target,
    );
  }

  instance abbrev pub pair_ord : Ord (Pair C)
  pair_ord = record { cmp = cmp_pair; lawful = pair-Lawful }

  abbrev pub cmp_provider_pair : ProviderPair C → ProviderPair C → Ordering
  cmp_provider_pair a b = then_with (cmp_pair a.pair b.pair) (cmp_provider a.provider b.provider)

  pub provider_pair-Lawful : Lawful cmp_provider_pair
  provider_pair-Lawful = record {
    cmp_refl = λ a. ground (arith, pair-Lawful.cmp_refl a.pair);
    eq_of_cmp = λ a b. ground (arith, pair-Lawful.eq_of_cmp a.pair b.pair);
    cmp_swap = λ a b. ground (arith, pair-Lawful.cmp_swap a.pair b.pair);
    lt_trans = λ a b c. ground (
      arith,
      pair-Lawful.eq_of_cmp a.pair b.pair,
      pair-Lawful.eq_of_cmp b.pair c.pair,
      pair-Lawful.lt_trans a.pair b.pair c.pair,
    );
  }

  instance abbrev pub provider_pair_ord : Ord (ProviderPair C)
  provider_pair_ord = record { cmp = cmp_provider_pair; lawful = provider_pair-Lawful }
