-- ===== src/RateLimit/Window.antt =====
-- Dropping the expired events of one bucket.
use cine_gate.Base.{
  ℕ, ◌+◌, ◌≤◌, ◌<◌, ◌≡◌, refl, List, [], ◌∷◌, ◌++◌, arith, length, ltb, if◌then◌else◌, All,
  Bool-cases, inl, inr,
}
use cine_gate.RateLimit.{Bucket, trim}

-- A later cutoff subsumes an earlier one.
pub trim-trim : (w m n : ℕ) (b : Bucket) → m ≤ n → trim w n (trim w m b) ≡ trim w n b
unfolding trim
trim-trim w m n [] h = refl
trim-trim w m n (t ∷ ts) h = ground (arith, trim-trim w m n ts)

-- An event of this moment is never expired.
pub trim-append : (w n : ℕ) (b : Bucket) → 0 < w → trim w n (b ++ n ∷ []) ≡ trim w n b ++ n ∷ []
unfolding trim
trim-append w n [] h = ground arith
trim-append w n (t ∷ ts) h = ground (arith, trim-append w n ts)

pub length-trim-le : (w n : ℕ) (b : Bucket) → length (trim w n b) ≤ length b
unfolding trim
length-trim-le w n [] = omega arith
length-trim-le w n (t ∷ ts) = ground (arith, length-trim-le w n ts)

-- How many of the times lie in the window that ends at `now`.
abbrev pub count_recent : ℕ → ℕ → List ℕ → ℕ
count_recent w now [] = 0
count_recent w now (t ∷ ts) = (if ltb now (t + w) then 1 else 0) + count_recent w now ts

-- Each time is followed by later ones only, or by the same.
abbrev pub IsAscending : List ℕ → Type 0
IsAscending [] = Unit
IsAscending (t ∷ ts) = All (λ u. t ≤ u) ts × IsAscending ts

-- Times that are not before one in the window are in the window.
count_recent-eq-length :
    (w now t : ℕ) (ts : List ℕ)
    → now < t + w
    → All (λ u. t ≤ u) ts
    → count_recent w now ts ≡ length ts
count_recent-eq-length w now t [] h later = refl
count_recent-eq-length w now t (u ∷ ts) h later =
    ground (arith, count_recent-eq-length w now t ts h later.1)

-- Of times that ascend, the code keeps those in the window.
pub length-trim :
    (w now : ℕ) (ts : List ℕ) → IsAscending ts → length (trim w now ts) ≡ count_recent w now ts
unfolding trim
length-trim w now [] asc = refl
length-trim w now (t ∷ ts) asc = elim (Bool-cases (ltb now (t + w))) [
  | inl e ↦ ground (arith, count_recent-eq-length w now t ts (ground arith) asc.0)
  | inr e ↦ ground (arith, length-trim w now ts asc.1)
]
