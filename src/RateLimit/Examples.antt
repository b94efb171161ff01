-- ===== src/RateLimit/Examples.antt =====
-- The theorems on the limiter at concrete calls, and tests of its code.
use cine_gate.Base.{ℕ, ◌<◌, ◌≡◌, refl, some, none, List, [], ◌∷◌, arith, ltb, inl, ◌+◌, ◌≢◌}
use cine_gate.RateLimit.{Decision, allowed, denied, SlidingWindowLimiter, create, get, check}
use cine_gate.RateLimit.Bounds.{IsValid, check_total}
use cine_gate.RateLimit.Buckets.{bucket_of}
use cine_gate.RateLimit.Refinement.{History, is_allowed, check-decision}
use cine_gate.RateLimit.Traces.{Call}
use cine_gate.RateLimit.Retry.{check_retry}
use cine_gate.RateLimit.Window.{count_recent}

-- Two admitted calls of key 7, in a window of 10 milliseconds.
abbrev busy : SlidingWindowLimiter
busy = record { limit = 2; window = 10; max_keys = 2; events = (7, 100 ∷ 104 ∷ []) ∷ [] }

abbrev busy_later : SlidingWindowLimiter
busy_later = record busy { events = (7, 104 ∷ 111 ∷ []) ∷ [] }

busy-IsValid : IsValid busy
unfolding get
busy-IsValid = record {
  limit_pos = omega arith;
  window_pos = omega arith;
  max_keys_pos = omega arith;
  distinct = (refl, tt);
  within = omega arith;
  size = omega arith;
}

abbrev busy_history : History
busy_history j = bucket_of j busy.events

busy_known : get 7 busy.events ≢ none
unfolding get
busy_known e = cc

-- The third call in the window is refused, for the 5 milliseconds until the first has left it.
check_refuses : check 105 7 busy ≡ some (denied 5, busy)
unfolding check
check_refuses = refl

check_admits : check 111 7 busy ≡ some (allowed, busy_later)
unfolding check
check_admits = refl

-- An unknown key takes the place of the oldest one when the limiter is full.
check_evicts :
    check 105 9 (record busy { max_keys = 1 })
    ≡ some (allowed, record busy { max_keys = 1; events = (9, 105 ∷ []) ∷ [] })
unfolding check
check_evicts = refl

create_refuses : create 0 10 10 ≡ none
unfolding create
create_refuses = refl

check_total_example :
    (d : Decision) × (m : SlidingWindowLimiter) × (check 105 7 busy ≡ some (d, m)) × IsValid m
check_total_example = check_total 105 7 busy busy-IsValid

check-decision_example : is_allowed allowed ≡ ltb (count_recent 10 111 (busy_history 7)) 2
unfolding get
check-decision_example =
    check-decision 111 7 busy busy_later allowed busy_history busy-IsValid (inl busy_known)
      (record { agree = λ j. refl }) check_admits (omega arith)

check_retry_example :
    (0 < 5) × ((n : SlidingWindowLimiter) × (check (105 + 5) 7 busy ≡ some (allowed, n)))
unfolding get
check_retry_example = check_retry 105 7 5 busy busy check_refuses busy-IsValid (omega arith)

-- A key whose second call is refused, and another that takes its place when it has expired.
abbrev calls : List Call
calls = (3, 1) ∷ (4, 1) ∷ (100, 2) ∷ []

abbrev fresh : SlidingWindowLimiter
fresh = record { limit = 1; window = 5; max_keys = 1; events = [] }

-- The limiter after a call of key `k` that was admitted.
abbrev after_call : ℕ → ℕ → SlidingWindowLimiter
after_call now k = record fresh { events = (k, now ∷ []) ∷ [] }
