-- ===== src/Base/Counts.antt =====
-- The number of rows that a query selects.
use Prim.Native.Nat.{ℕ, zero, suc, ◌+◌, ◌≤◌, min}
use mathlib.Core.Path.{◌≡◌, refl}
use mathlib.Core.Bool.{Bool, ◌&&◌}
use mathlib.Core.List.{List, [], ◌∷◌}
use native.Mathlib.Omega.{arith}
use cine_gate.Base.Lists.{length, take}
use cine_gate.Base.Tables.{bit, count}
use cine_gate.Base.Sorting.{insert_by, order_by, select_where}

module _ {R : Type 0} where
  pub length-take : (n : ℕ) (rs : List R) → length (take n rs) ≡ min n (length rs)
  length-take zero rs = omega arith
  length-take (suc n) [] = omega arith
  length-take (suc n) (r ∷ rs) = omega (arith, length-take n rs)

  pub count-take-le : (p : R → Bool) (n : ℕ) (rs : List R) → count p (take n rs) ≤ count p rs
  unfolding count
  count-take-le p zero rs = omega arith
  count-take-le p (suc n) [] = omega arith
  count-take-le p (suc n) (r ∷ rs) = omega (arith, count-take-le p n rs)

  length-insert_by :
      (before : R → R → Bool) (r : R) (rs : List R)
      → length (insert_by before r rs) ≡ suc (length rs)
  unfolding insert_by
  length-insert_by before r [] = refl
  length-insert_by before r (s ∷ rs) = ground (arith, length-insert_by before r rs)

  pub length-order_by :
      (before : R → R → Bool) (rs : List R) → length (order_by before rs) ≡ length rs
  unfolding order_by
  length-order_by before [] = refl
  length-order_by before (r ∷ rs) =
      omega (arith, length-insert_by before r (order_by before rs), length-order_by before rs)

  count-insert_by :
      (p : R → Bool) (before : R → R → Bool) (r : R) (rs : List R)
      → count p (insert_by before r rs) ≡ bit (p r) + count p rs
  unfolding count insert_by
  count-insert_by p before r [] = refl
  count-insert_by p before r (s ∷ rs) = ground (arith, count-insert_by p before r rs)

  pub count-order_by :
      (p : R → Bool) (before : R → R → Bool) (rs : List R)
      → count p (order_by before rs) ≡ count p rs
  unfolding count order_by
  count-order_by p before [] = refl
  count-order_by p before (r ∷ rs) =
      omega (arith, count-insert_by p before r (order_by before rs), count-order_by p before rs)

  pub length-select_where : (p : R → Bool) (rs : List R) → length (select_where p rs) ≡ count p rs
  unfolding count select_where
  length-select_where p [] = refl
  length-select_where p (r ∷ rs) = ground (arith, length-select_where p rs)

  pub count-select_where :
      (p q : R → Bool) (rs : List R) → count q (select_where p rs) ≡ count (λ r. p r && q r) rs
  unfolding count select_where
  count-select_where p q [] = refl
  count-select_where p q (r ∷ rs) = ground (arith, count-select_where p q rs)
