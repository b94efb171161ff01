-- ===== src/RateLimit/Buckets.antt =====
-- The ordered dictionary of buckets: lookups after removals, insertions and evictions.
use cine_gate.Base.{
  ℕ, suc, ◌≤◌, ◌≡◌, ◌≢◌, refl, none, some, [], ◌∷◌, ◌++◌, arith, ◌==◌, if◌then◌else◌, length,
  or_else,
}
use cine_gate.RateLimit.{Bucket, Events, get, pop, drop_expired}
use cine_gate.RateLimit.Window.{length-trim-le}

-- No key occurs twice.
abbrev pub IsDistinct : Events → Type 0
IsDistinct [] = Unit
IsDistinct ((k, b) ∷ es) = (get k es ≡ none) × IsDistinct es

-- No bucket holds more than `n` events.
abbrev pub Fits : ℕ → Events → Type 0
Fits n [] = Unit
Fits n ((k, b) ∷ es) = (length b ≤ n) × Fits n es

-- The bucket of a key, empty if the key is unknown.
abbrev pub bucket_of : ℕ → Events → Bucket
bucket_of k es = or_else (get k es) []

pub get-pop : (k j : ℕ) (es : Events) → k ≢ j → get j (pop k es) ≡ get j es
unfolding get pop
get-pop k j [] h = refl
get-pop k j ((i, b) ∷ es) h = ground (arith, get-pop k j es h)

pub get-pop_self : (k : ℕ) (es : Events) → IsDistinct es → get k (pop k es) ≡ none
unfolding get pop
get-pop_self k [] h = refl
get-pop_self k ((i, b) ∷ es) h = ground (arith, get-pop_self k es h.1)

pub get-append :
    (j k : ℕ) (b : Bucket) (es : Events)
    → get j (es ++ (k, b) ∷ [])
      ≡ elim (get j es) [ some c ↦ some c | none ↦ if k == j then some b else none ]
unfolding get
get-append j k b [] = ground arith
get-append j k b ((i, c) ∷ es) = ground (arith, get-append j k b es)

pub pop-IsDistinct : (k : ℕ) (es : Events) → IsDistinct es → IsDistinct (pop k es)
unfolding get pop
pop-IsDistinct k [] h = tt
pop-IsDistinct k ((i, b) ∷ es) h = ground (arith, pop-IsDistinct k es h.1, get-pop k i es)

pub append-IsDistinct :
    (k : ℕ) (b : Bucket) (es : Events)
    → IsDistinct es
    → get k es ≡ none
    → IsDistinct (es ++ (k, b) ∷ [])
unfolding get
append-IsDistinct k b [] h e = (refl, tt)
append-IsDistinct k b ((i, c) ∷ es) h e =
    ground (arith, append-IsDistinct k b es h.1, get-append i k b es)

pub pop-Fits : (n k : ℕ) (es : Events) → Fits n es → Fits n (pop k es)
unfolding pop
pop-Fits n k [] h = tt
pop-Fits n k ((i, b) ∷ es) h = ground (arith, pop-Fits n k es h.1)

pub append-Fits :
    (n k : ℕ) (b : Bucket) (es : Events) → Fits n es → length b ≤ n → Fits n (es ++ (k, b) ∷ [])
append-Fits n k b [] h e = (e, tt)
append-Fits n k b ((i, c) ∷ es) h e = (h.0, append-Fits n k b es h.1 e)

-- What is known is taken out, so one place becomes free.
pub length-pop :
    (k : ℕ) (b : Bucket) (es : Events) → get k es ≡ some b → suc (length (pop k es)) ≡ length es
unfolding get pop
length-pop k b [] h = ground arith
length-pop k b ((i, c) ∷ es) h = ground (arith, length-pop k b es)

pub get-Fits : (n k : ℕ) (b : Bucket) (es : Events) → Fits n es → get k es ≡ some b → length b ≤ n
unfolding get
get-Fits n k b [] h e = ground arith
get-Fits n k b ((i, c) ∷ es) h e = ground (arith, get-Fits n k b es h.1)

module _ (w now : ℕ) where
  pub get-drop_expired-none :
      (k : ℕ) (es : Events) → get k es ≡ none → get k (drop_expired w now es) ≡ none
  unfolding get drop_expired
  get-drop_expired-none k [] h = refl
  get-drop_expired-none k ((i, b) ∷ es) h = ground (arith, get-drop_expired-none k es)

  pub drop_expired-IsDistinct : (es : Events) → IsDistinct es → IsDistinct (drop_expired w now es)
  unfolding drop_expired
  drop_expired-IsDistinct [] h = tt
  drop_expired-IsDistinct ((i, b) ∷ es) h =
      ground (arith, drop_expired-IsDistinct es h.1, get-drop_expired-none i es h.0)

  pub drop_expired-Fits : (n : ℕ) (es : Events) → Fits n es → Fits n (drop_expired w now es)
  unfolding drop_expired
  drop_expired-Fits n [] h = tt
  drop_expired-Fits n ((i, b) ∷ es) h =
      ground (arith, drop_expired-Fits n es h.1, length-trim-le w now b)
