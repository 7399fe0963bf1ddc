-- ===== src/Tests/Genesis.antt =====
-- The genesis of a chain with two authorities, whose keys are the texts that they are made from; a text
-- of two characters or less gives none.
use substrate_aggregator.Prelude.{ℕ, Option, none, some, List, [], ◌∷◌, codes}
use substrate_aggregator.Node.ChainSpec.{Keys}

abbrev key_of : List ℕ → Option (List ℕ)
key_of (x ∷ y ∷ z ∷ text) = some (x ∷ y ∷ z ∷ text)
key_of text = none

abbrev keys : Keys
keys = record {
  AuraId = List ℕ;
  GrandpaId = List ℕ;
  Public = List ℕ;
  AccountId = List ℕ;
  aura_from_string = key_of;
  grandpa_from_string = key_of;
  public_from_string = key_of;
  into_account = λ public. public;
}

abbrev authorities : List (List ℕ)
authorities = codes "Alice" ∷ codes "Bob" ∷ []

abbrev endowed : List (List ℕ)
endowed = codes "Alice" ∷ codes "Bob" ∷ codes "Alice//stash" ∷ []
