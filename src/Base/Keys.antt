-- ===== src/Base/Keys.antt =====
-- A table read under a key other than its primary key, and rows that are restored.
use Prim.Native.Nat.{ℕ}
use mathlib.Core.Path.{◌≡◌, refl}
use mathlib.Core.Logic.{inl, inr}
use mathlib.Core.Option.{none, some}
use mathlib.Core.List.{List, [], ◌∷◌}
use native.Mathlib.Omega.{arith}
use cine_gate.Base.Tests.{◌==◌, if◌then◌else◌, Bool-cases}
use cine_gate.Base.Tables.{lookup, put, IsUnique, lookup-key}

-- A row that is found under two keys is written back under the one and read under the other.
module _ {R : Type 0} (key other : R → ℕ) where
  pub lookup-put_other :
      (k : ℕ) (r old : R) (rs : List R)
      → lookup key (key r) rs ≡ some old
      → lookup other (other r) rs ≡ some old
      → lookup other k (put key r rs) ≡ (if other r == k then some r else lookup other k rs)
  unfolding lookup put
  lookup-put_other k r old [] h g = cc
  lookup-put_other k r old (s ∷ rs) h g =
      let same_other : other old ≡ other r = lookup-key other (other r) (s ∷ rs) old g in
      let same_key : key old ≡ key r = lookup-key key (key r) (s ∷ rs) old h in
      elim (Bool-cases (key s == key r)) [
        | inl hit ↦ rw hit (ground arith)
        | inr miss ↦ rw miss (ground (arith, lookup-put_other k r old rs))
      ]

  lookup-put_other_none :
      (k : ℕ) (r old : R) (rs : List R)
      → lookup key (key r) rs ≡ some old
      → other r ≡ other old
      → lookup other k rs ≡ none
      → lookup other k (put key r rs) ≡ none
  unfolding lookup put
  lookup-put_other_none k r old [] h e n = refl
  lookup-put_other_none k r old (s ∷ rs) h e n = elim (Bool-cases (key s == key r)) [
    | inl hit ↦ rw hit (ground arith)
    | inr miss ↦ rw miss (ground (arith, lookup-put_other_none k r old rs))
  ]

  -- With unique keys, what is found under the other key is the row under its key.
  pub lookup-lookup :
      (k : ℕ) (r : R) (rs : List R)
      → IsUnique key rs
      → lookup other k rs ≡ some r
      → lookup key (key r) rs ≡ some r
  unfolding lookup
  lookup-lookup k r [] u e = cc
  lookup-lookup k r (s ∷ rs) u e = ground (arith, lookup-lookup k r rs u.1)

  pub put_other-IsUnique :
      (r old : R) (rs : List R)
      → lookup key (key r) rs ≡ some old
      → other r ≡ other old
      → IsUnique other rs
      → IsUnique other (put key r rs)
  unfolding lookup put
  put_other-IsUnique r old [] h e u = tt
  put_other-IsUnique r old (s ∷ rs) h e u = elim (Bool-cases (key s == key r)) [
    | inl hit ↦ rw hit (ground arith)
    | inr miss ↦
        rw miss
          (ground (arith, put_other-IsUnique r old rs, lookup-put_other_none (other s) r old rs))
  ]

-- A row that is overwritten and then restored.
module _ {R : Type 0} (key : R → ℕ) where
  pub put-put_back :
      (old r : R) (rs : List R)
      → lookup key (key r) rs ≡ some old
      → key r ≡ key old
      → put key old (put key r rs) ≡ rs
  unfolding lookup put
  put-put_back old r [] h e = refl
  put-put_back old r (s ∷ rs) h e = ground (arith, put-put_back old r rs)
