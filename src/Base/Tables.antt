-- ===== src/Base/Tables.antt =====
-- A database table: its rows, each under a number that is its primary key.
use Prim.Native.Nat.{ℕ, ◌+◌, ◌≤◌}
use mathlib.Core.Path.{◌≡◌, refl, subst}
use mathlib.Core.Bool.{Bool, true, false}
use mathlib.Core.Option.{Option, none, some}
use mathlib.Core.List.{List, [], ◌∷◌}
use native.Mathlib.Omega.{arith}
use cine_gate.Base.Tests.{◌==◌, if◌then◌else◌, Bool-cases}
use mathlib.Core.Logic.{◌⊎◌, inl, inr}
use cine_gate.Base.Lists.{All}

abbrev pub bit : Bool → ℕ
bit true = 1
bit false = 0

module _ {R : Type 0} where
  -- `UPDATE ... SET f WHERE p`.
  unfoldable pub update_where : (R → Bool) → (R → R) → List R → List R
  update_where p f [] = []
  update_where p f (r ∷ rs) = (if p r then f r else r) ∷ update_where p f rs

  -- `SELECT ... WHERE p ORDER BY ... LIMIT 1`, where `before r s` says that `r` is not behind `s` in
  -- the order. Of rows that the order does not tell apart it is the first of the table.
  unfoldable pub select_first : (R → R → Bool) → (R → Bool) → List R → Option R
  select_first before p [] = none
  select_first before p (r ∷ rs) =
      let rest = select_first before p rs in
      if p r
      then elim rest [ none ↦ some r | some s ↦ if before r s then some r else some s ]
      else rest

  -- `SELECT count(*) ... WHERE p`.
  unfoldable pub count : (R → Bool) → List R → ℕ
  count p [] = 0
  count p (r ∷ rs) = bit (p r) + count p rs

  -- The selected row is the first row or is selected from the others.
  select_first-cons :
      (before : R → R → Bool) (p : R → Bool) (s : R) (rs : List R) (r : R)
      → select_first before p (s ∷ rs) ≡ some r
      → ((s ≡ r) × (p r ≡ true)) ⊎ (select_first before p rs ≡ some r)
  unfolding select_first
  select_first-cons before p s rs r h = ground arith

  pub select_first_sat :
      (before : R → R → Bool) (p : R → Bool) (rs : List R) (r : R)
      → select_first before p rs ≡ some r
      → p r ≡ true
  unfolding select_first
  select_first_sat before p [] r e = cc
  select_first_sat before p (s ∷ rs) r e = ground (arith, select_first_sat before p rs r)

  module _ (P : R → Type 0) where
    pub All-update_where :
        (p : R → Bool) (f : R → R)
        → ((r : R) → p r ≡ true → P r → P (f r))
        → (rs : List R) → All P rs
        → All P (update_where p f rs)
    unfolding update_where
    All-update_where p f keep [] h = tt
    All-update_where p f keep (r ∷ rs) h = elim (Bool-cases (p r)) [
      | inl e ↦ (rw e (keep r e h.0), All-update_where p f keep rs h.1)
      | inr e ↦ (rw e h.0, All-update_where p f keep rs h.1)
    ]

    pub All-select_first :
        (before : R → R → Bool) (p : R → Bool) (rs : List R) (r : R)
        → All P rs
        → select_first before p rs ≡ some r
        → P r × (p r ≡ true)
    unfolding select_first
    All-select_first before p [] r h e = cc
    All-select_first before p (s ∷ rs) r h e = elim (select_first-cons before p s rs r e) [
      | inl (same, sat) ↦ (subst P same h.0, sat)
      | inr there ↦ All-select_first before p rs r h.1 there
    ]

  pub count-update_where-le :
      (q p : R → Bool) (f : R → R)
      → ((r : R) → p r ≡ true → q (f r) ≡ true → q r ≡ true)
      → (rs : List R) → count q (update_where p f rs) ≤ count q rs
  unfolding update_where count
  count-update_where-le q p f keep [] = omega arith
  count-update_where-le q p f keep (r ∷ rs) =
      ground (arith, count-update_where-le q p f keep rs, keep r)

  -- Where a selection finds no row there is none.
  pub count-select_first-none :
      (before : R → R → Bool) (p : R → Bool) (rs : List R)
      → select_first before p rs ≡ none
      → count p rs ≡ 0
  unfolding select_first count
  count-select_first-none before p [] e = refl
  count-select_first-none before p (r ∷ rs) e = ground (arith, count-select_first-none before p rs)

module _ {R : Type 0} (key : R → ℕ) where
  unfoldable pub lookup : ℕ → List R → Option R
  lookup k [] = none
  lookup k (r ∷ rs) = if key r == k then some r else lookup k rs

  -- The row object with the key of `r` has become `r`, and is written back.
  unfoldable pub put : R → List R → List R
  put r [] = []
  put r (s ∷ rs) = if key s == key r then r ∷ rs else s ∷ put r rs

  -- No primary key occurs twice.
  abbrev pub IsUnique : List R → Type 0
  IsUnique [] = Unit
  IsUnique (r ∷ rs) = (lookup (key r) rs ≡ none) × IsUnique rs

  pub lookup-put :
      (k : ℕ) (r old : R) (rs : List R)
      → lookup (key r) rs ≡ some old
      → lookup k (put r rs) ≡ (if key r == k then some r else lookup k rs)
  unfolding lookup put
  lookup-put k r old [] h = cc
  lookup-put k r old (s ∷ rs) h = ground (arith, lookup-put k r old rs)

  pub lookup-put-none :
      (k : ℕ) (r : R) (rs : List R) → lookup k rs ≡ none → lookup k (put r rs) ≡ none
  unfolding lookup put
  lookup-put-none k r [] h = refl
  lookup-put-none k r (s ∷ rs) h = ground (arith, lookup-put-none k r rs)

  pub lookup-key : (k : ℕ) (rs : List R) (r : R) → lookup k rs ≡ some r → key r ≡ k
  unfolding lookup
  lookup-key k [] r h = cc
  lookup-key k (s ∷ rs) r h = ground (arith, lookup-key k rs r)

  -- Writing the same row again changes nothing.
  pub put-put : (r : R) (rs : List R) → put r (put r rs) ≡ put r rs
  unfolding put
  put-put r [] = refl
  put-put r (s ∷ rs) = ground (arith, put-put r rs)

  pub put-IsUnique : (r : R) (rs : List R) → IsUnique rs → IsUnique (put r rs)
  unfolding lookup put
  put-IsUnique r [] h = tt
  put-IsUnique r (s ∷ rs) h = ground (arith, put-IsUnique r rs h.1, lookup-put-none (key s) r rs)

  pub count-put :
      (p : R → Bool) (r old : R) (rs : List R)
      → lookup (key r) rs ≡ some old
      → count p (put r rs) + bit (p old) ≡ count p rs + bit (p r)
  unfolding lookup put count
  count-put p r old [] h = cc
  count-put p r old (s ∷ rs) h = ground (arith, count-put p r old rs)

  pub lookup-update_where :
      (p : R → Bool) (f : R → R)
      → ((r : R) → key (f r) ≡ key r)
      → (k : ℕ) (rs : List R)
      → lookup k (update_where p f rs)
        ≡ elim (lookup k rs) [ none ↦ none | some r ↦ some (if p r then f r else r) ]
  unfolding lookup update_where
  lookup-update_where p f same k [] = refl
  lookup-update_where p f same k (r ∷ rs) =
      ground (arith, lookup-update_where p f same k rs, same r)

  pub update_where-IsUnique :
      (p : R → Bool) (f : R → R)
      → ((r : R) → key (f r) ≡ key r)
      → (rs : List R) → IsUnique rs
      → IsUnique (update_where p f rs)
  unfolding update_where
  update_where-IsUnique p f same [] h = tt
  update_where-IsUnique p f same (r ∷ rs) h = ground (
    arith,
    update_where-IsUnique p f same rs h.1,
    same r,
    lookup-update_where p f same (key r) rs,
  )

  module _ (P : R → Type 0) where
    pub All-lookup : (k : ℕ) (rs : List R) (r : R) → All P rs → lookup k rs ≡ some r → P r
    unfolding lookup
    All-lookup k [] r h e = cc
    All-lookup k (s ∷ rs) r h e = elim (Bool-cases (key s == k)) [
      | inl hit ↦ let same : s ≡ r = ground arith in subst P same h.0
      | inr miss ↦ All-lookup k rs r h.1 (ground arith)
    ]

    pub All-put : (r : R) (rs : List R) → All P rs → P r → All P (put r rs)
    unfolding put
    All-put r [] h p = tt
    All-put r (s ∷ rs) h p = elim (Bool-cases (key s == key r)) [
      | inl e ↦ rw e (p, h.1)
      | inr e ↦ rw e (h.0, All-put r rs h.1 p)
    ]

  -- With unique keys a selected row is the row under its key.
  pub lookup-select_first :
      (before : R → R → Bool) (p : R → Bool) (rs : List R) (r : R)
      → IsUnique rs
      → select_first before p rs ≡ some r
      → lookup (key r) rs ≡ some r
  unfolding lookup select_first
  lookup-select_first before p [] r h e = cc
  lookup-select_first before p (s ∷ rs) r h e = elim (select_first-cons before p s rs r e) [
    | inl (same, _) ↦ ground arith
    | inr there ↦ ground (arith, lookup-select_first before p rs r h.1 there)
  ]
