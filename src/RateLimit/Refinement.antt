-- ===== src/RateLimit/Refinement.antt =====
-- The limiter against the complete history of admitted calls.
use cine_gate.Base.{
  ℕ, ◌<◌, ◌≡◌, ◌≢◌, ◌⊎◌, none, some, List, [], ◌∷◌, ◌++◌, arith, ◌==◌, ltb, if◌then◌else◌, length,
  Option-cases, inl, inr, Bool, true, false, ◌&&◌,
}
use cine_gate.RateLimit.{
  Bucket, Decision, allowed, denied, SlidingWindowLimiter, trim, get, drop_expired, admit, locate,
  check,
}
use cine_gate.RateLimit.Window.{count_recent, IsAscending, length-trim}
use cine_gate.RateLimit.Buckets.{bucket_of}
use cine_gate.RateLimit.Bounds.{IsValid}

-- The times at which each key was admitted, oldest first.
abbrev pub History : Type 0
History = ℕ → List ℕ

abbrev pub is_allowed : Decision → Bool
is_allowed allowed = true
is_allowed (denied r) = false

-- The history after a call.
abbrev pub record_call : ℕ → ℕ → Decision → History → History
record_call now k d h j = if k == j && is_allowed d then h j ++ now ∷ [] else h j

-- The buckets show what the complete history has in the window that ends at `now`.
pub record Tracks (now : ℕ) (l : SlidingWindowLimiter) (h : History) : Type 0 where
  pub agree : (j : ℕ) → trim l.window now (bucket_of j l.events) ≡ trim l.window now (h j)

-- The key is known, or fewer than `max_keys` keys are there once the expired ones are dropped.
abbrev pub HasRoom : ℕ → ℕ → SlidingWindowLimiter → Type 0
HasRoom now k l =
    (get k l.events ≢ none) ⊎ (length (drop_expired l.window now l.events) < l.max_keys)

pub locate_own : (now k : ℕ) (l : SlidingWindowLimiter) → (locate now k l).1 ≡ bucket_of k l.events
unfolding locate
locate_own now k l = ground arith

-- What the decision leaves in the window.
pub admit_lem :
    (limit window now : ℕ) (b c : Bucket) (d : Decision)
    → admit limit window now b ≡ some (d, c)
    → (c ≡ (if is_allowed d then b ++ now ∷ [] else b)) × (is_allowed d ≡ ltb (length b) limit)
unfolding admit
admit_lem limit window now [] c d h = ground arith
admit_lem limit window now (t ∷ ts) c d h = ground arith

module _ (now k : ℕ) (l m : SlidingWindowLimiter) (d : Decision) (h : History) (v : IsValid l)
    (room : HasRoom now k l) (agrees : Tracks now l h) (called : check now k l ≡ some (d, m)) where
  abbrev own : Bucket
  own = trim l.window now (bucket_of k l.events)

  -- What the call did, read off the code.
  outcome :
      (c : Bucket) × (m ≡ record l { events = (locate now k l).0 ++ (k, c) ∷ [] })
      × (c ≡ (if is_allowed d then own ++ now ∷ [] else own))
      × (is_allowed d ≡ ltb (length own) l.limit)
  unfolding check
  outcome =
      elim (Option-cases (admit l.limit l.window now (trim l.window now (locate now k l).1))) [
        | inl e ↦ ground arith
        | inr ((d', c), e) ↦ (
          c,
          ground arith,
          ground (arith, admit_lem l.limit l.window now own c d, locate_own now k l),
          ground (arith, admit_lem l.limit l.window now own c d, locate_own now k l),
        )
      ]

  -- The code counts what it has kept of the history.
  pub check-kept : is_allowed d ≡ ltb (length (trim l.window now (h k))) l.limit
  check-kept = let (c, e, f, g) = outcome in rw (← agrees.agree k) g

  -- A call by a known key, or one that finds fewer than `max_keys` keys once the expired ones are
  -- dropped, on a limiter within its bounds that agrees with a history of admitted calls, is
  -- admitted exactly when fewer than `limit` times of its key in the history are in the window that
  -- ends now; the times of the key must ascend.
  pub check-decision :
      IsAscending (h k) → is_allowed d ≡ ltb (count_recent l.window now (h k)) l.limit
  check-decision asc = rw (← length-trim l.window now (h k) asc) check-kept
