-- ===== src/Base/Sorting.antt =====
-- `ORDER BY`: insertion sort by a test that says which of two rows comes first.
use Prim.Native.Nat.{ℕ, zero, suc}
use mathlib.Core.Path.{◌≡◌}
use mathlib.Core.Bool.{Bool, true}
use mathlib.Core.List.{List, [], ◌∷◌}
use cine_gate.Base.Tests.{if◌then◌else◌, Bool-cases}
use mathlib.Core.Logic.{inl, inr}
use cine_gate.Base.Lists.{All, take}

module _ {R : Type 0} where
  unfoldable pub insert_by : (R → R → Bool) → R → List R → List R
  insert_by before r [] = r ∷ []
  insert_by before r (s ∷ rs) =
      let rest = insert_by before r rs in if before r s then r ∷ s ∷ rs else s ∷ rest

  unfoldable pub order_by : (R → R → Bool) → List R → List R
  order_by before [] = []
  order_by before (r ∷ rs) = insert_by before r (order_by before rs)

  -- `SELECT ... WHERE p`.
  unfoldable pub select_where : (R → Bool) → List R → List R
  select_where p [] = []
  select_where p (r ∷ rs) = let rest = select_where p rs in if p r then r ∷ rest else rest

  pub All-select_where :
      (P : R → Type 0) (p : R → Bool) (rs : List R)
      → All P rs
      → All (λ r. P r × (p r ≡ true)) (select_where p rs)
  unfolding select_where
  All-select_where P p [] h = tt
  All-select_where P p (r ∷ rs) h = elim (Bool-cases (p r)) [
    | inl e ↦ rw e ((h.0, e), All-select_where P p rs h.1)
    | inr e ↦ rw e (All-select_where P p rs h.1)
  ]

  pub All-insert_by :
      (P : R → Type 0) (before : R → R → Bool) (r : R) (rs : List R)
      → P r
      → All P rs
      → All P (insert_by before r rs)
  unfolding insert_by
  All-insert_by P before r [] p h = (p, tt)
  All-insert_by P before r (s ∷ rs) p h = elim (Bool-cases (before r s)) [
    | inl e ↦ rw e (p, h)
    | inr e ↦ rw e (h.0, All-insert_by P before r rs p h.1)
  ]

  pub All-order_by :
      (P : R → Type 0) (before : R → R → Bool) (rs : List R) → All P rs → All P (order_by before rs)
  unfolding order_by
  All-order_by P before [] h = tt
  All-order_by P before (r ∷ rs) h =
      All-insert_by P before r (order_by before rs) h.0 (All-order_by P before rs h.1)

  pub All-take : (P : R → Type 0) (n : ℕ) (rs : List R) → All P rs → All P (take n rs)
  All-take P zero rs h = tt
  All-take P (suc n) [] h = tt
  All-take P (suc n) (r ∷ rs) h = (h.0, All-take P n rs h.1)
