-- ===== src/RateLimit.antt =====
-- services/rate_limit.py: the sliding-window limiter.
--
-- A time is a number of milliseconds of the limiter's clock, so the shortest retry of 0.001 seconds
-- is 1. The rounding of floats is not modelled. `bucket[0] <= now - window` is read as
-- `bucket[0] + window <= now`, since the subtraction of the source does not stop at 0.
mod Window
mod Buckets
pub mod Refinement
pub mod Bounds
pub mod Traces
pub mod Retry
mod Examples
use cine_gate.Base.{
  ℕ, ◌+◌, ◌-◌, max, Bool, true, false, Option, none, some, List, [], ◌∷◌, ◌++◌, ltb, leb, ◌==◌,
  if◌then◌else◌, length,
}

-- A bucket: the times of the admitted calls, oldest first.
abbrev pub Bucket : Type 0
Bucket = List ℕ

-- The ordered dictionary of buckets, least recently seen key first. A key is a number.
abbrev pub Events : Type 0
Events = List (ℕ × Bucket)

pub record SlidingWindowLimiter : Type 0 where
  pub limit : ℕ
  pub window : ℕ
  pub max_keys : ℕ
  pub events : Events

pub data Decision : Type 0 where
  allowed : Decision
  denied : ℕ → Decision

-- The constructor; `none` is the ValueError.
pub create : ℕ → ℕ → ℕ → Option SlidingWindowLimiter
create limit window max_keys =
    if leb limit 0
    then none
    else if leb window 0
    then none
    else if leb max_keys 0
    then none
    else some (record { limit = limit; window = window; max_keys = max_keys; events = [] })

-- `while bucket and bucket[0] <= cutoff: bucket.popleft()`.
pub trim : ℕ → ℕ → Bucket → Bucket
trim window now [] = []
trim window now (t ∷ ts) =
    let rest = trim window now ts in if leb (t + window) now then rest else t ∷ ts

-- `self._events.get(key)`.
pub get : ℕ → Events → Option Bucket
get k [] = none
get k ((j, b) ∷ es) = if j == k then some b else get k es

-- `self._events.pop(key, None)`.
pub pop : ℕ → Events → Events
pop k [] = []
pop k ((j, b) ∷ es) = if j == k then es else (j, b) ∷ pop k es

-- The scan of `_evict_if_needed`: it empties the buckets of a prefix of the keys and stops at the
-- first key whose bucket keeps an event. The keys with an empty bucket are that prefix, and are
-- removed.
pub drop_expired : ℕ → ℕ → Events → Events
drop_expired window now [] = []
drop_expired window now ((k, b) ∷ es) =
    let rest = drop_expired window now es in
    let kept = trim window now b in elim kept [ [] ↦ rest | t ∷ ts ↦ (k, t ∷ ts) ∷ es ]

-- `while len(self._events) >= self.max_keys: self._events.popitem(last=False)`.
pub drop_oldest : ℕ → Events → Events
drop_oldest max_keys [] = []
drop_oldest max_keys (e ∷ es) =
    let rest = drop_oldest max_keys es in if leb max_keys (length (e ∷ es)) then rest else e ∷ es

pub evict_if_needed : ℕ → SlidingWindowLimiter → Events
unfolding drop_expired drop_oldest trim
evict_if_needed now l = drop_oldest l.max_keys (drop_expired l.window now l.events)

-- The decision on a bucket that holds no expired event, and the bucket it leaves. `none` is the
-- IndexError of `bucket[0]` on an empty bucket.
pub admit : ℕ → ℕ → ℕ → Bucket → Option (Decision × Bucket)
admit limit window now [] = if leb limit 0 then none else some (allowed, now ∷ [])
admit limit window now (t ∷ ts) =
    if leb limit (length (t ∷ ts))
    then some (denied (max 1 (window + t - now)), t ∷ ts)
    else some (allowed, (t ∷ ts) ++ now ∷ [])

-- The buckets that the call leaves in front of its own, and its own as the call found it.
pub locate : ℕ → ℕ → SlidingWindowLimiter → Events × Bucket
unfolding get pop evict_if_needed
locate now k l = elim (get k l.events) [
  | none ↦ (evict_if_needed now l, [])
  | some b ↦ (pop k l.events, b)
]

-- `check(key)` at the clock's value `now`.
pub check : ℕ → ℕ → SlidingWindowLimiter → Option (Decision × SlidingWindowLimiter)
unfolding locate admit trim
check now k l =
    let (others, bucket) = locate now k l in
    elim (admit l.limit l.window now (trim l.window now bucket)) [
      | none ↦ none
      | some (d, b) ↦ some (d, record l { events = others ++ (k, b) ∷ [] })
    ]
