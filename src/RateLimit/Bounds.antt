-- ===== src/RateLimit/Bounds.antt =====
-- The bounds that every call of the limiter keeps.
use cine_gate.Base.{
  ℕ, ◌+◌, ◌-◌, max, ◌≤◌, ◌<◌, ◌≡◌, refl, none, some, [], ◌∷◌, ◌++◌, arith, length, leb,
  length-append, Option-cases, inl, inr, Bool-cases,
}
use cine_gate.RateLimit.{
  Bucket, Events, Decision, allowed, denied, SlidingWindowLimiter, create, trim, get, drop_oldest,
  evict_if_needed, admit, locate, check,
}
use cine_gate.RateLimit.Window.{length-trim-le}
use cine_gate.RateLimit.Buckets.{
  IsDistinct, Fits, get-pop_self, pop-IsDistinct, append-IsDistinct, pop-Fits, append-Fits,
  length-pop, get-Fits, drop_expired-IsDistinct, drop_expired-Fits, get-drop_expired-none,
}

pub record IsValid (l : SlidingWindowLimiter) : Type 0 where
  pub limit_pos : 0 < l.limit
  pub window_pos : 0 < l.window
  pub max_keys_pos : 0 < l.max_keys
  pub distinct : IsDistinct l.events
  pub within : Fits l.limit l.events
  pub size : length l.events ≤ l.max_keys

-- A limiter that the constructor accepts satisfies the bounds.
pub create-IsValid :
    (limit window max_keys : ℕ) {l : SlidingWindowLimiter}
    → create limit window max_keys ≡ some l
    → IsValid l
unfolding create
create-IsValid limit window max_keys h = ground arith

pub length-drop_oldest : (n : ℕ) (es : Events) → 0 < n → length (drop_oldest n es) < n
unfolding drop_oldest
length-drop_oldest n [] h = omega arith
length-drop_oldest n (e ∷ es) h = ground (arith, length-drop_oldest n es)

get-drop_oldest-none : (n k : ℕ) (es : Events) → get k es ≡ none → get k (drop_oldest n es) ≡ none
unfolding drop_oldest get
get-drop_oldest-none n k [] h = refl
get-drop_oldest-none n k (e ∷ es) h = ground (arith, get-drop_oldest-none n k es)

drop_oldest-IsDistinct : (n : ℕ) (es : Events) → IsDistinct es → IsDistinct (drop_oldest n es)
unfolding drop_oldest
drop_oldest-IsDistinct n [] h = tt
drop_oldest-IsDistinct n (e ∷ es) h = ground (arith, drop_oldest-IsDistinct n es h.1)

drop_oldest-Fits : (m n : ℕ) (es : Events) → Fits m es → Fits m (drop_oldest n es)
unfolding drop_oldest
drop_oldest-Fits m n [] h = tt
drop_oldest-Fits m n (e ∷ es) h = ground (arith, drop_oldest-Fits m n es h.1)

-- The buckets in front of the call's own leave room for it, hold no other bucket for its key, and
-- its own bucket is within the limit.
pub record Located (k : ℕ) (l : SlidingWindowLimiter) (r : Events × Bucket) : Type 0 where
  pub absent : get k r.0 ≡ none
  pub distinct : IsDistinct r.0
  pub within : Fits l.limit r.0
  pub room : length r.0 < l.max_keys
  pub bucket : length r.1 ≤ l.limit

pub locate-Located :
    (now k : ℕ) (l : SlidingWindowLimiter) → IsValid l → Located k l (locate now k l)
locate-Located now k l v = elim (Option-cases (get k l.events)) [
  | inl e ↦
      unfold locate in
      rw (e, locate)
        (unfold evict_if_needed in
          record {
            absent =
                get-drop_oldest-none l.max_keys k _
                  (get-drop_expired-none l.window now k l.events e);
            distinct =
                drop_oldest-IsDistinct l.max_keys _
                  (drop_expired-IsDistinct l.window now l.events v.distinct);
            within =
                drop_oldest-Fits l.limit l.max_keys _
                  (drop_expired-Fits l.window now l.limit l.events v.within);
            room = length-drop_oldest l.max_keys _ v.max_keys_pos;
            bucket = omega arith;
          })
  | inr (b, e) ↦
      unfold locate in
      rw (e, locate)
        (record {
          absent = get-pop_self k l.events v.distinct;
          distinct = pop-IsDistinct k l.events v.distinct;
          within = pop-Fits l.limit k l.events v.within;
          room = omega (arith, length-pop k b l.events e, v.size);
          bucket = get-Fits l.limit k b l.events v.within e;
        })
]

-- A bucket within a positive limit is decided, and stays within the limit.
pub admit_total :
    (limit window now : ℕ) (b : Bucket)
    → 0 < limit
    → length b ≤ limit
    → (d : Decision) × (c : Bucket) × (admit limit window now b ≡ some (d, c)) × (length c ≤ limit)
unfolding admit
admit_total limit window now [] p h = (allowed, now ∷ [], ground arith, ground arith)
admit_total limit window now (t ∷ ts) p h = elim (Bool-cases (leb limit (length (t ∷ ts)))) [
  | inl full ↦ (denied (max 1 (window + t - now)), t ∷ ts, rw full, h)
  | inr free ↦ (allowed, (t ∷ ts) ++ now ∷ [], rw free, ground (arith, length-append ts (now ∷ [])))
]

-- Every call on a limiter within its bounds has a decision, and the limiter stays within them: no
-- bucket has more than `limit` events, no more than `max_keys` keys are kept and none twice.
pub check_total :
    (now k : ℕ) (l : SlidingWindowLimiter)
    → IsValid l
    → (d : Decision) × (m : SlidingWindowLimiter) × (check now k l ≡ some (d, m)) × IsValid m
unfolding check
check_total now k l v =
    let r = locate now k l in
    let at : Located k l r = locate-Located now k l v in
    let short : length (trim l.window now r.1) ≤ l.limit =
      omega (arith, length-trim-le l.window now r.1, at.bucket) in
    let (d, b, e, fits) =
      admit_total l.limit l.window now (trim l.window now r.1) v.limit_pos short in
    (
      d,
      record l { events = r.0 ++ (k, b) ∷ [] },
      rw (e, check),
      record {
        limit_pos = v.limit_pos;
        window_pos = v.window_pos;
        max_keys_pos = v.max_keys_pos;
        distinct = append-IsDistinct k b r.0 at.distinct at.absent;
        within = append-Fits l.limit k b r.0 at.within fits;
        size = omega (arith, length-append r.0 ((k, b) ∷ []), at.room);
      },
    )
