-- ===== src/RateLimit/Traces.antt =====
-- Sequences of calls of the limiter.
use cine_gate.Base.{
  ℕ, ◌≤◌, ◌≡◌, Option, none, some, List, [], ◌∷◌, arith, length, Option-cases, inl, inr,
}
use cine_gate.RateLimit.{Decision, SlidingWindowLimiter, check, get}
use cine_gate.RateLimit.Buckets.{bucket_of, get-Fits}
use cine_gate.RateLimit.Bounds.{IsValid}
use cine_gate.RateLimit.Refinement.{History, HasRoom, Tracks, record_call}

-- A call: the clock's value and the key.
abbrev pub Call : Type 0
Call = ℕ × ℕ

abbrev pub nothing : History
nothing j = []

-- The calls in order, with the history that they leave.
pub serve : List Call → SlidingWindowLimiter → History → Option (SlidingWindowLimiter × History)
serve [] l h = some (l, h)
serve ((now, k) ∷ cs) l h = elim (check now k l) [
  | none ↦ none
  | some (d, m) ↦ serve cs m (record_call now k d h)
]

-- The clock does not run backwards, and `last` is not before any call.
abbrev pub Ascending : ℕ → List Call → ℕ → Type 0
Ascending t [] last = t ≤ last
Ascending t ((now, k) ∷ cs) last = (t ≤ now) × Ascending now cs last

-- Every call of the sequence is by a known key, or finds fewer than `max_keys` keys once the expired
-- ones are dropped.
abbrev pub Roomy : List Call → SlidingWindowLimiter → Type 0
Roomy [] l = Unit
Roomy ((now, k) ∷ cs) l =
    HasRoom now k l
    × ((d : Decision) (m : SlidingWindowLimiter) → check now k l ≡ some (d, m) → Roomy cs m)

-- The state in which a sequence of calls that started from `l` ends.
pub record Served (l : SlidingWindowLimiter) (last : ℕ) (m : SlidingWindowLimiter) (h : History)
    : Type 0 where
  pub valid : IsValid m
  pub limit : m.limit ≡ l.limit
  pub window : m.window ≡ l.window
  pub tracks : Tracks last m h

abbrev Serves : List Call → SlidingWindowLimiter → History → ℕ → Type 0
Serves cs l h last =
    (m : SlidingWindowLimiter) × (h' : History) × (serve cs l h ≡ some (m, h')) × Served l last m h'

pub length-bucket_of :
    (l : SlidingWindowLimiter) (k : ℕ) → IsValid l → length (bucket_of k l.events) ≤ l.limit
length-bucket_of l k v = elim (Option-cases (get k l.events)) [
  | inl e ↦ rw e (omega arith)
  | inr (b, e) ↦ rw e (get-Fits l.limit k b l.events v.within e)
]
