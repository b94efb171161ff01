-- ===== src/Rewards/Access.antt =====
-- When a method reaches the session that it is called for.
use cine_gate.Base.{
  ℕ, ◌≡◌, refl, ◌⊎◌, inl, inr, ◌==◌, leb, false, ◌&&◌, some, ok, err, Result, arith, Option-cases,
  Bool-cases,
}
use cine_gate.Models.{RewardSession, Database}
use cine_gate.Rewards.Rows.{
  RewardError, session_not_found, session_expired, user_mismatch, is_expirable, is_expired_status,
  put_reward,
}
use cine_gate.Rewards.{expire, select_reward, require_current, require_own}

-- The session can still be acted on.
pub record IsCurrent (now : ℕ) (r : RewardSession) : Type 0 where
  pub not_expired : is_expired_status r.status ≡ false
  pub in_time : (is_expirable r.status && leb r.expires_at now) ≡ false

abbrev pub Refused : {A : Type 0} → Result RewardError A × Database → Type 0
Refused r = (e : RewardError) × (t : Database) × (r ≡ (err e, t))

abbrev pub Reached : ℕ → Database → ℕ → RewardSession → Type 0
Reached now s id r = (select_reward id s ≡ some r) × IsCurrent now r

row_cases :
    (now : ℕ) (r : RewardSession) (s : Database)
    → Refused (require_current now (some r) s)
      ⊎ (IsCurrent now r × (require_current now (some r) s ≡ (ok r, s)))
unfolding require_current
row_cases now r s = elim (Bool-cases (is_expired_status r.status)) [
  | inl e ↦ inl (session_expired, s, rw e)
  | inr e ↦ elim (Bool-cases (is_expirable r.status && leb r.expires_at now)) [
    | inl f ↦ inl (session_expired, put_reward (expire r) s, rw (e, f))
    | inr f ↦ inr (record { not_expired = e; in_time = f }, rw (e, f))
  ]
]

-- The method raises, or it has found a session that can still be acted on.
pub require_current_cases :
    (now id : ℕ) (s : Database)
    → Refused (require_current now (select_reward id s) s)
      ⊎ ((r : RewardSession) × Reached now s id r
          × (require_current now (select_reward id s) s ≡ (ok r, s)))
require_current_cases now id s = elim (Option-cases (select_reward id s)) [
  | inl e ↦ inl (session_not_found, s, rw e (unfold require_current in refl))
  | inr (r, e) ↦ elim (row_cases now r s) [
    | inl (x, t, f) ↦ inl (x, t, rw e f)
    | inr (c, f) ↦ inr (r, (e, c), rw e f)
  ]
]

-- The same where the session must also belong to the user.
pub require_own_cases :
    (now id user : ℕ) (s : Database)
    → Refused (require_own now id user s)
      ⊎ ((r : RewardSession) × Reached now s id r
          × (r.telegram_user_id ≡ user)
          × (require_own now id user s ≡ (ok r, s)))
unfolding require_own
require_own_cases now id user s = elim (require_current_cases now id s) [
  | inl (x, t, e) ↦ inl (x, t, rw e)
  | inr (r, at, e) ↦ elim (Bool-cases (r.telegram_user_id == user)) [
    | inl own ↦ inr (r, at, ground arith, rw (e, own))
    | inr other ↦ inl (user_mismatch, s, rw (e, other))
  ]
]
