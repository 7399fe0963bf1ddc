-- ===== src/Pallet/BestPaths/Lines.antt =====
-- pallets/aggregator/src/lib.rs: which changes of `ocw_submit_best_paths_changes` get a log line,
-- and whether the lines can be printed.
use mathlib.Core.List.{head-eq_of_cons-eq, tail-eq_of_cons-eq}
use substrate_aggregator.Prelude.{
  ◌≡◌, refl, sym, ap, ◌∙◌, subst, ◌⊎◌, inl, inr, Option, none, some, List, [], ◌∷◌, ◌++◌, ℕ,
  Outcome, returns, panics,
}
use substrate_aggregator.Ord.{Ord, nat_ord}
use substrate_aggregator.Storage.{Storage, write}
use substrate_aggregator.Types.{Pair, PricePath, pair_ord}
use substrate_aggregator.Types.Conversions.{Conversions}
use substrate_aggregator.Pallet.State.{Amount, Change, PriceEntry}
use substrate_aggregator.Pallet.BestPaths.{pair_of, change_path, apply_changes}
use substrate_aggregator.Pallet.BestPaths.Logged.{log_line, log_change, log_changes}

Outcome-cases : {R : Type 0} (x : Outcome R) → ((r : R) × (x ≡ returns r)) ⊎ (x ≡ panics)
Outcome-cases (returns r) = inl (r, refl)
Outcome-cases panics = inr refl

module _ {C A : Type 0} ⦃cv : Conversions C⦄ where
  module _ ⦃o : Ord C⦄ ⦃a : Amount A⦄ where
    -- The change gets a line: it asks for a path, or the pair holds one when its turn comes.
    abbrev pub IsLogged : Change C A → Option (PricePath C A) → Type 0
    IsLogged c old =
        ((path : PricePath C A) × (c.2 ≡ some path)) ⊎ ((path : PricePath C A) × (old ≡ some path))

    abbrev pub Read : Change C A → Type 0
    Read c =
        (source : List ℕ) × (target : List ℕ) × (cv.to_str c.0 ≡ returns source)
        × (cv.to_str c.1 ≡ returns target)

    abbrev pub Unread : Change C A → Type 0
    Unread c = (cv.to_str c.0 ≡ panics) ⊎ (cv.to_str c.1 ≡ panics)

    -- What a map holds after some changes.
    abbrev pub after :
        List (Change C A) → Storage (Pair C) (PricePath C A) → Storage (Pair C) (PricePath C A)
    after cs m = (apply_changes cs m []).0

    -- Both currencies of each change that gets a line have texts.
    abbrev pub AllRead : List (Change C A) → Storage (Pair C) (PricePath C A) → Type 0
    AllRead cs m =
        (xs : List (Change C A)) (c : Change C A) (ys : List (Change C A))
        → cs ≡ xs ++ c ∷ ys
        → IsLogged c (after xs m (pair_of c))
        → Read c

    -- A currency of a change that gets a line has none.
    abbrev pub SomeUnread : List (Change C A) → Storage (Pair C) (PricePath C A) → Type 0
    SomeUnread cs m =
        (xs : List (Change C A)) × (c : Change C A) × (ys : List (Change C A)) × (cs ≡ xs ++ c ∷ ys)
        × IsLogged c (after xs m (pair_of c))
        × Unread c

    after-cons :
        (c : Change C A) (cs : List (Change C A)) (m : Storage (Pair C) (PricePath C A))
        → after (c ∷ cs) m ≡ after cs (write (pair_of c) (change_path c (m (pair_of c))) m)
    unfolding apply_changes
    after-cons c cs m = same cs _ _ _
      where
        same :
            (cs : List (Change C A)) (m : Storage (Pair C) (PricePath C A))
            (es es' : List (PriceEntry C A))
            → (apply_changes cs m es).0 ≡ (apply_changes cs m es').0
        same [] m es es' = refl
        same (c ∷ cs) m es es' = same cs _ _ _

    log_line-cases :
        (c : Change C A)
        → ((log_line c.0 c.1 ≡ returns tt) × Read c) ⊎ ((log_line c.0 c.1 ≡ panics) × Unread c)
    log_line-cases (source, target, path) = elim (Outcome-cases (cv.to_str source)) [
      | inl (text, e) ↦ elim (Outcome-cases (cv.to_str target)) [
        | inl (text', e') ↦ inl (rw (e, e') refl, (text, text', e, e'))
        | inr e' ↦ inr (rw (e, e') refl, inr e')
      ]
      | inr e ↦ inr (rw e refl, inl e)
    ]

    log_change-cases :
        (c : Change C A) (old : Option (PricePath C A))
        → ((log_change c old ≡ returns tt) × (IsLogged c old → Read c))
          ⊎ ((log_change c old ≡ panics) × IsLogged c old × Unread c)
    unfolding log_change
    log_change-cases (s, t, some path) old = elim (log_line-cases (s, t, some path)) [
      | inl (e, read) ↦ inl (e, λ logged. read)
      | inr (e, unread) ↦ inr (e, inl (path, refl), unread)
    ]
    log_change-cases (s, t, none) (some old) = elim (log_line-cases (s, t, none)) [
      | inl (e, read) ↦ inl (e, λ logged. read)
      | inr (e, unread) ↦ inr (e, inr (old, refl), unread)
    ]
    log_change-cases (s, t, none) none = inl (refl, nothing)
      where
        nothing : IsLogged (s, t, none) none → Read (s, t, none)
        nothing (inl (path, e)) = absurd (cc)
        nothing (inr (path, e)) = absurd (cc)

    reads-nil : (m : Storage (Pair C) (PricePath C A)) → AllRead [] m
    reads-nil m [] c ys e logged = absurd (cc)
    reads-nil m (x ∷ xs) c ys e logged = absurd (cc)

    reads-cons :
        (c : Change C A) (cs : List (Change C A)) (m : Storage (Pair C) (PricePath C A))
        → (IsLogged c (m (pair_of c)) → Read c)
        → AllRead cs (write (pair_of c) (change_path c (m (pair_of c))) m)
        → AllRead (c ∷ cs) m
    unfolding apply_changes
    reads-cons c cs m read reads [] d ys e logged =
        let same : c ≡ d = head-eq_of_cons-eq e in
        subst Read same (read (subst (λ x. IsLogged x (m (pair_of x))) (sym same) logged))
    reads-cons c cs m read reads (x ∷ xs) d ys e logged =
        let same : c ≡ x = head-eq_of_cons-eq e in
        reads xs d ys (tail-eq_of_cons-eq e) (
          subst (λ n. IsLogged d (n (pair_of d)))
            (ap (λ z. after (z ∷ xs) m) (sym same) ∙ after-cons c xs m) logged)

    pub log_changes-cases :
        (cs : List (Change C A)) (m : Storage (Pair C) (PricePath C A))
        → ((log_changes cs m ≡ returns tt) × AllRead cs m)
          ⊎ ((log_changes cs m ≡ panics) × SomeUnread cs m)
    unfolding log_changes apply_changes
    log_changes-cases [] m = inl (refl, reads-nil m)
    log_changes-cases (c ∷ cs) m =
        let m' = write (pair_of c) (change_path c (m (pair_of c))) m in
        elim (log_change-cases c (m (pair_of c))) [
          | inr (e, logged, unread) ↦ inr (rw e refl, ([], c, cs, refl, logged, unread))
          | inl (e, read) ↦ elim (log_changes-cases cs m') [
            | inl (es, reads) ↦ inl (rw (e, es) refl, reads-cons c cs m read reads)
            | inr (es, (xs, d, ys, same, logged, unread)) ↦ inr (
              rw (e, es) refl,
              (
                c ∷ xs,
                d,
                ys,
                ap (λ z. c ∷ z) same,
                subst (λ n. IsLogged d (n (pair_of d))) (sym (after-cons c xs m)) logged,
                unread,
              ),
            )
          ]
        ]
