-- ===== src/RateLimit/Retry.antt =====
-- The retry time that a refused call is given.
use cine_gate.Base.{
  ℕ, ◌+◌, ◌≤◌, ◌<◌, ◌≡◌, refl, some, [], ◌∷◌, ◌++◌, arith, length, ltb, All, true, Option-cases,
  inl, inr,
}
use mathlib.Core.Path.{subst}
use cine_gate.RateLimit.{
  Bucket, Decision, allowed, denied, SlidingWindowLimiter, trim, get, admit, locate, check,
}
use cine_gate.RateLimit.Window.{length-trim-le}
use cine_gate.RateLimit.Buckets.{bucket_of, get-append}
use cine_gate.RateLimit.Bounds.{IsValid, locate-Located, check_total}
use cine_gate.RateLimit.Refinement.{is_allowed, locate_own, admit_lem, check-kept}
use cine_gate.RateLimit.Traces.{length-bucket_of}

-- No event of the bucket is later than `now`.
abbrev pub IsPast : ℕ → Bucket → Type 0
IsPast now b = All (λ t. t ≤ now) b

trim-IsPast : (w now : ℕ) (b : Bucket) → IsPast now b → IsPast now (trim w now b)
unfolding trim
trim-IsPast w now [] h = tt
trim-IsPast w now (t ∷ ts) h = ground (arith, trim-IsPast w now ts h.1)

-- Once the oldest event has left the window there is a free place.
length-trim-later :
    (w now r limit : ℕ) (b c : Bucket)
    → IsPast now b
    → length b ≤ limit
    → admit limit w now b ≡ some (denied r, c)
    → length (trim w (now + r) b) < limit
unfolding admit trim
length-trim-later w now r limit [] c p h e = ground arith
length-trim-later w now r limit (t ∷ ts) c p h e = ground (arith, length-trim-le w (now + r) ts)

is_allowed-eq_true : (d : Decision) → is_allowed d ≡ true → d ≡ allowed
is_allowed-eq_true d h = ground arith

admit-denied_pos :
    (limit w now r : ℕ) (b c : Bucket) → admit limit w now b ≡ some (denied r, c) → 0 < r
unfolding admit
admit-denied_pos limit w now r [] c h = ground arith
admit-denied_pos limit w now r (t ∷ ts) c h = ground arith

module _ (now k r : ℕ) (l m : SlidingWindowLimiter)
    (refused : check now k l ≡ some (denied r, m)) where
  -- The limiter that a refused call leaves.
  refusal :
      (c : Bucket) × (admit l.limit l.window now (trim l.window now (locate now k l).1)
        ≡ some (denied r, c))
      × (m ≡ record l { events = (locate now k l).0 ++ (k, c) ∷ [] })
  unfolding check
  refusal =
      elim (Option-cases (admit l.limit l.window now (trim l.window now (locate now k l).1))) [
        | inl e ↦ ground arith
        | inr ((d, c), e) ↦ (c, ground arith, ground arith)
      ]

  -- It still holds what the key has in the window.
  refused_bucket :
      IsValid l
      → (m.limit ≡ l.limit)
        × (m.window ≡ l.window)
        × (get k m.events ≡ some (trim l.window now (bucket_of k l.events)))
  refused_bucket v =
      let (c, e, f) = refusal in
      ground (
        arith,
        admit_lem l.limit l.window now (trim l.window now (locate now k l).1) c (denied r) e,
        locate_own now k l,
        get-append k k c (locate now k l).0,
        (locate-Located now k l v).absent,
      )

  -- A refused call is told a positive time, and the next call of the key is admitted if it comes
  -- after just that time; the events of the key must not be in the future of the refused call.
  pub check_retry :
      IsValid l
      → IsPast now (bucket_of k l.events)
      → (0 < r) × ((n : SlidingWindowLimiter) × (check (now + r) k m ≡ some (allowed, n)))
  check_retry v past =
      let (_, m', made, valid') = check_total now k l v in
      let same : m' ≡ m = cc in
      let valid : IsValid m = subst IsValid same valid' in
      let (c, e, f) = refusal in
      let kept = refused_bucket v in
      let own : Bucket = trim l.window now (bucket_of k l.events) in
      let (d, n, again, _) = check_total (now + r) k m valid in
      let decision : is_allowed d
          ≡ ltb (length (trim m.window (now + r) (bucket_of k m.events))) m.limit =
        check-kept (now + r) k m n d (λ j. bucket_of j m.events) valid (inl (λ gone. cc))
          (record { agree = λ j. refl }) again in
      let later : length (trim l.window (now + r) own) < l.limit =
        length-trim-later l.window now r l.limit own c (trim-IsPast l.window now _ past)
          (omega
            (arith, length-trim-le l.window now (bucket_of k l.events), length-bucket_of l k v))
          (rw (← locate_own now k l) e) in
      let allows : d ≡ allowed = is_allowed-eq_true d (ground arith) in
      (admit-denied_pos l.limit l.window now r _ c e, (n, cc))
