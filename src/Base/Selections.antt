-- ===== src/Base/Selections.antt =====
-- The rows that a query selects from a table with unique keys, and the writing back of some of them.
use Prim.Native.Nat.{ℕ, zero, suc}
use mathlib.Core.Path.{◌≡◌, refl}
use mathlib.Core.Bool.{Bool, false}
use mathlib.Core.Option.{none, some}
use mathlib.Core.List.{List, [], ◌∷◌}
use mathlib.Core.Logic.{inl, inr}
use native.Mathlib.Omega.{arith}
use cine_gate.Base.Tests.{◌==◌, Bool-cases}
use cine_gate.Base.Lists.{All, take}
use cine_gate.Base.Tables.{lookup, put, IsUnique, lookup-put}
use cine_gate.Base.Sorting.{insert_by, order_by, select_where}

module _ {R : Type 0} (key : R → ℕ) where
  -- Each row of the list is the row of the table under its key.
  abbrev pub IsFrom : List R → List R → Type 0
  IsFrom table = All (λ r. lookup key (key r) table ≡ some r)

  IsFrom-cons :
      (r : R) (rs ds : List R) → lookup key (key r) ds ≡ none → IsFrom rs ds → IsFrom (r ∷ rs) ds
  unfolding lookup
  IsFrom-cons r rs [] n h = tt
  IsFrom-cons r rs (d ∷ ds) n h =
      (ground (arith, n, h.0), IsFrom-cons r rs ds (ground (arith, n)) h.1)

  pub IsUnique-IsFrom : (rs : List R) → IsUnique key rs → IsFrom rs rs
  unfolding lookup
  IsUnique-IsFrom [] u = tt
  IsUnique-IsFrom (r ∷ rs) u = (ground arith, IsFrom-cons r rs rs u.0 (IsUnique-IsFrom rs u.1))

  -- A row that is written back leaves the rows under other keys.
  pub put-IsFrom :
      (r old : R) (rs ds : List R)
      → lookup key (key r) rs ≡ some old
      → lookup key (key r) ds ≡ none
      → IsFrom rs ds
      → IsFrom (put key r rs) ds
  unfolding lookup
  put-IsFrom r old rs [] h n from = tt
  put-IsFrom r old rs (d ∷ ds) h n from = (
    ground (arith, n, from.0, lookup-put key (key d) r old rs h),
    put-IsFrom r old rs ds h (ground (arith, n)) from.1,
  )

  lookup-select_where-none :
      (k : ℕ) (p : R → Bool) (rs : List R)
      → lookup key k rs ≡ none
      → lookup key k (select_where p rs) ≡ none
  unfolding lookup select_where
  lookup-select_where-none k p [] h = refl
  lookup-select_where-none k p (r ∷ rs) h = ground (arith, lookup-select_where-none k p rs)

  pub select_where-IsUnique :
      (p : R → Bool) (rs : List R) → IsUnique key rs → IsUnique key (select_where p rs)
  unfolding select_where
  select_where-IsUnique p [] u = tt
  select_where-IsUnique p (r ∷ rs) u = elim (Bool-cases (p r)) [
    | inl e ↦ rw e (lookup-select_where-none (key r) p rs u.0, select_where-IsUnique p rs u.1)
    | inr e ↦ rw e (select_where-IsUnique p rs u.1)
  ]

  lookup-insert_by-none :
      (before : R → R → Bool) (k : ℕ) (r : R) (rs : List R)
      → (key r == k) ≡ false
      → lookup key k rs ≡ none
      → lookup key k (insert_by before r rs) ≡ none
  unfolding lookup insert_by
  lookup-insert_by-none before k r [] n h = ground arith
  lookup-insert_by-none before k r (s ∷ rs) n h =
      ground (arith, lookup-insert_by-none before k r rs n)

  insert_by-IsUnique :
      (before : R → R → Bool) (r : R) (rs : List R)
      → lookup key (key r) rs ≡ none
      → IsUnique key rs
      → IsUnique key (insert_by before r rs)
  unfolding lookup insert_by
  insert_by-IsUnique before r [] n u = (refl, tt)
  insert_by-IsUnique before r (s ∷ rs) n u = elim (Bool-cases (before r s)) [
    | inl e ↦ rw e (n, u)
    | inr e ↦ rw e (
      lookup-insert_by-none before (key s) r rs (ground arith) u.0,
      insert_by-IsUnique before r rs (ground arith) u.1,
    )
  ]

  lookup-order_by-none :
      (before : R → R → Bool) (k : ℕ) (rs : List R)
      → lookup key k rs ≡ none
      → lookup key k (order_by before rs) ≡ none
  unfolding lookup order_by
  lookup-order_by-none before k [] h = refl
  lookup-order_by-none before k (r ∷ rs) h =
      lookup-insert_by-none before k r (order_by before rs) (ground arith)
        (lookup-order_by-none before k rs (ground arith))

  pub order_by-IsUnique :
      (before : R → R → Bool) (rs : List R) → IsUnique key rs → IsUnique key (order_by before rs)
  unfolding order_by
  order_by-IsUnique before [] u = tt
  order_by-IsUnique before (r ∷ rs) u =
      insert_by-IsUnique before r (order_by before rs) (lookup-order_by-none before (key r) rs u.0)
        (order_by-IsUnique before rs u.1)

  lookup-take-none :
      (n k : ℕ) (rs : List R) → lookup key k rs ≡ none → lookup key k (take n rs) ≡ none
  unfolding lookup
  lookup-take-none zero k rs h = refl
  lookup-take-none (suc n) k [] h = refl
  lookup-take-none (suc n) k (r ∷ rs) h = ground (arith, lookup-take-none n k rs)

  pub take-IsUnique : (n : ℕ) (rs : List R) → IsUnique key rs → IsUnique key (take n rs)
  take-IsUnique zero rs u = tt
  take-IsUnique (suc n) [] u = tt
  take-IsUnique (suc n) (r ∷ rs) u = (lookup-take-none n (key r) rs u.0, take-IsUnique n rs u.1)
