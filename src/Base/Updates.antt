-- ===== src/Base/Updates.antt =====
-- An `UPDATE` whose condition fixes the primary key: it writes the row under the key, or nothing.
use Prim.Native.Nat.{ℕ}
use mathlib.Core.Path.{◌≡◌, refl}
use mathlib.Core.Bool.{Bool, true, false, ◌&&◌}
use mathlib.Core.Option.{none, some}
use mathlib.Core.List.{List, [], ◌∷◌}
use native.Mathlib.Omega.{arith}
use cine_gate.Base.Tests.{◌==◌}
use cine_gate.Base.Tables.{update_where, count, lookup, put, IsUnique}

module _ {R : Type 0} (key : R → ℕ) (k : ℕ) (guard : R → Bool) (f : R → R) where
  abbrev hits : R → Bool
  hits r = key r == k && guard r

  -- The update writes no row.
  pub update_where-missing :
      (rs : List R) → lookup key k rs ≡ none → (update_where hits f rs ≡ rs) × (count hits rs ≡ 0)
  unfolding update_where count lookup
  update_where-missing [] h = (refl, refl)
  update_where-missing (r ∷ rs) h = ground (arith, update_where-missing rs)

  pub update_where-refused :
      (rs : List R) (r : R)
      → IsUnique key rs
      → lookup key k rs ≡ some r
      → guard r ≡ false
      → (update_where hits f rs ≡ rs) × (count hits rs ≡ 0)
  unfolding update_where count lookup
  update_where-refused [] r u h g = cc
  update_where-refused (s ∷ rs) r u h g =
      ground (arith, update_where-missing rs, update_where-refused rs r u.1)

  pub update_where-hit :
      (rs : List R) (r : R)
      → IsUnique key rs
      → lookup key k rs ≡ some r
      → guard r ≡ true
      → key (f r) ≡ k
      → (update_where hits f rs ≡ put key (f r) rs) × (count hits rs ≡ 1)
  unfolding update_where count lookup put
  update_where-hit [] r u h g same = cc
  update_where-hit (s ∷ rs) r u h g same =
      ground (arith, update_where-missing rs, update_where-hit rs r u.1)
