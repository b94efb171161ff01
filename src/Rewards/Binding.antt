-- ===== src/Rewards/Binding.antt =====
-- What session `get_or_create` answers with.
use cine_gate.Base.{
  ℕ, ◌+◌, ◌≤◌, ◌≡◌, refl, inl, inr, Bool, true, Option, none, some, ok, err, arith, Option-cases,
  Bool-cases, Result, String, select_first, lookup, eq_iff, str_eq, roll_back, roll_back_result,
  select_first_sat,
}
use cine_gate.Models.{
  seconds, RewardSession, RewardStatus, MovieQuality, Database, setting, get_int_cases,
  clamp_bounds, ℤ,
}
use cine_gate.Rewards.Rows.{
  RewardError, setting_type_error, RewardSessionView, view, bounded_session_seconds,
  is_rewarded_status, availability_reason, movie_key, quality_key, put_reward, preserve_unavailable,
  quality_unavailable,
}
use cine_gate.Rewards.{
  expire_overdue, holds_slot, newest_first, oldest_first, is_retained, is_requested, select_active,
  select_quality, new_session, release_unavailable, resolve, get_or_create,
}

pub bounded_session_seconds_bounds :
    (v : Option ℤ) → (60 ≤ bounded_session_seconds v) × (bounded_session_seconds v ≤ 3600)
unfolding bounded_session_seconds
bounded_session_seconds_bounds none = omega arith
bounded_session_seconds_bounds (some n) = clamp_bounds 60 3600 n (omega arith)

-- The session is the user's, for the movie and the quality; a new one is pending, under the new key,
-- for one minute at least and one hour at most.
pub record IsBound (now id user movie : ℕ) (quality : String) (v : RewardSessionView)
    (created : Bool) : Type 0 where
  pub of_user : v.telegram_user_id ≡ user
  pub of_movie : v.movie_id ≡ movie
  pub of_quality : v.quality ≡ quality
  pub new_key : created ≡ true → v.id ≡ id
  pub new_pending : created ≡ true → v.status ≡ RewardStatus.pending
  pub not_soon : created ≡ true → now + seconds 60 ≤ v.expires_at
  pub not_late : created ≡ true → v.expires_at ≤ now + seconds 3600

abbrev Answers : Result RewardError (RewardSessionView × Bool) → RewardSessionView → Bool → Type 0
Answers r v created = r ≡ ok (v, created)

module _ (now id user movie : ℕ) (quality : String) (q : MovieQuality)
    (asked : str_eq q.quality quality ≡ true) (t : Database) where
  resolve-IsBound :
      (kept active : Option RewardSession)
      → ((k : RewardSession) → kept ≡ some k → is_retained user movie q quality k ≡ true)
      → ((a : RewardSession) → active ≡ some a → a.telegram_user_id ≡ user)
      → (v : RewardSessionView) (created : Bool)
      → (resolve now id user movie quality q kept active t).0 ≡ ok (v, created)
      → IsBound now id user movie quality v created
  unfolding resolve view new_session
  resolve-IsBound (some k) active hk ha v created e =
      ground (arith, hk k refl, eq_iff k.quality quality)
  resolve-IsBound none (some a) hk ha v created e =
      ground (arith, ha a refl, eq_iff a.quality quality)
  resolve-IsBound none none hk ha v created e =
      elim (get_int_cases setting_type_error (setting "reward_session_seconds" t.settings) t) [
        | inl (n, f) ↦
            let made : Answers
                (ok (view (new_session now id user movie q (bounded_session_seconds n)), true)) v
                created =
              rw (f, resolve) at e in
            ground (arith, eq_iff q.quality quality, bounded_session_seconds_bounds n)
        | inr f ↦
            let failed : Answers (err setting_type_error) v created = rw (f, resolve) at e in cc
      ]

-- What stays active is the session that was selected.
release_same :
    (now : ℕ) (candidate : Option RewardSession) (s : Database)
    → (active : Option RewardSession) × (t : Database) × (release_unavailable now candidate s
        ≡ (ok active, t))
      × ((a : RewardSession) → active ≡ some a → candidate ≡ some a)
release_same now none s = (none, s, unfold release_unavailable in refl, λ a e. e)
release_same now (some c) s = elim (Bool-cases (is_rewarded_status c.status)) [
  | inr other ↦ (some c, s, unfold release_unavailable in rw other, λ a e. e)
  | inl earned ↦
      elim (Option-cases (
        availability_reason c (lookup movie_key c.movie_id s.movies)
          (lookup quality_key c.movie_quality_id s.qualities))) [
            | inl f ↦ (some c, s, unfold release_unavailable in rw (earned, f), λ a e. e)
            | inr (why, f) ↦ (
              none,
              put_reward (preserve_unavailable why now c) s,
              unfold release_unavailable in rw (earned, f),
              λ a e. cc,
            )
          ]
]

asked_quality :
    (movie : ℕ) (quality : String) (s : Database) (q : MovieQuality)
    → select_quality movie quality s ≡ some q
    → str_eq q.quality quality ≡ true
unfolding select_quality
asked_quality movie quality s q e =
    ground (arith, select_first_sat (λ _ _. true) (is_requested movie quality s) s.qualities q)

active_user :
    (user : ℕ) (s : Database) (a : RewardSession)
    → select_active user s ≡ some a
    → a.telegram_user_id ≡ user
unfolding select_active
active_user user s a e = ground (arith, select_first_sat newest_first (holds_slot user) s.rewards a)

-- A session that `get_or_create` answers with is bound to the user, movie and quality of the
-- request; a new one is pending under the new key, and expires one minute to one hour from now.
pub get_or_create-IsBound :
    (now id user movie : ℕ) (quality : String) (s : Database) (v : RewardSessionView)
    (created : Bool)
    → (get_or_create now id user movie quality s).0 ≡ ok (v, created)
    → IsBound now id user movie quality v created
unfolding get_or_create
get_or_create-IsBound now id user movie quality s v created e =
    elim (Option-cases (select_quality movie quality s)) [
      | inl f ↦
          let failed : Answers (err quality_unavailable) v created = rw (f, get_or_create) at e in
          cc
      | inr (q, f) ↦
          let u = expire_overdue now user s in
          let (active, t, g, same) = release_same now (select_active user u) u in
          let kept : Option RewardSession =
            select_first oldest_first (is_retained user movie q quality) t.rewards in
          let ends : (roll_back s (resolve now id user movie quality q kept active t)).0
              ≡ ok (v, created) =
            rw (f, get_or_create, g) at e in
          resolve-IsBound now id user movie quality q (asked_quality movie quality s q f) t kept
            active
            (λ k h. select_first_sat oldest_first (is_retained user movie q quality) t.rewards k h)
            (λ a h. active_user user u a (same a h)) v created
            (rw (← roll_back_result s (resolve now id user movie quality q kept active t)) ends)
    ]
