-- ===== src/Rewards/Confirmation.antt =====
-- The two confirmations of an advertisement, by the client and by the provider.
use cine_gate.Base.{
  ℕ, ◌≡◌, ◌⊎◌, inl, inr, is_some, true, none, some, ok, err, arith, ap, Option-cases, lookup-put,
  lookup-key, put-put, ◌∙◌, or_else, Bool-cases, lookup-update_where, refl,
}
use cine_gate.Models.{RewardSession, Database}
use cine_gate.Rewards.Rows.{
  RewardError, RewardSessionView, view, is_active_status, is_rewarded, is_expired_status,
  in_delivery, refresh_reward_status, reward_key, put_reward,
}
use cine_gate.Rewards.{
  expire, is_overdue, expire_overdue, holds_slot, select_reward, select_active, client_complete,
  provider_confirm, mark_client_completed, mark_provider_confirmed,
}
use cine_gate.Rewards.Access.{IsCurrent, Reached, require_own_cases}
use cine_gate.Rewards.Invariant.{RewardOk, Inv, expire_overdue-Inv, client_complete-id}
use cine_gate.Rewards.Methods.{active_ok, active_key, found_ok, found_key}

-- The client's report at `now` has made `q` of the row `r`: the first report is on record, the
-- provider's confirmation is as it was, and the session is rewarded just where there is one.
pub record IsReport (now : ℕ) (r q : RewardSession) : Type 0 where
  pub same_session : (q.id ≡ r.id) × (q.telegram_user_id ≡ r.telegram_user_id)
  pub client : q.client_completed_at ≡ some (or_else r.client_completed_at now)
  pub provider : q.provider_confirmed_at ≡ r.provider_confirmed_at
  pub rewarded : is_rewarded q.status ≡ is_some r.provider_confirmed_at

-- The same of the provider's confirmation.
pub record IsConfirmation (now : ℕ) (r q : RewardSession) : Type 0 where
  pub same_session : (q.id ≡ r.id) × (q.telegram_user_id ≡ r.telegram_user_id)
  pub provider : q.provider_confirmed_at ≡ some (or_else r.provider_confirmed_at now)
  pub client : q.client_completed_at ≡ r.client_completed_at
  pub rewarded : is_rewarded q.status ≡ is_some r.client_completed_at

client_complete-IsReport :
    (now : ℕ) (r : RewardSession)
    → RewardOk r
    → IsCurrent now r
    → IsReport now r (client_complete now r)
unfolding client_complete refresh_reward_status is_rewarded in_delivery is_expired_status
client_complete-IsReport now r o c = record {
  same_session = ground arith;
  client = ground arith;
  provider = ground arith;
  rewarded = ground arith;
}

provider_confirm-IsConfirmation :
    (now user : ℕ) (r : RewardSession)
    → RewardOk r
    → holds_slot user r ≡ true
    → IsConfirmation now r (provider_confirm now r)
unfolding provider_confirm refresh_reward_status is_rewarded in_delivery is_active_status
provider_confirm-IsConfirmation now user r o h = record {
  same_session = ground arith;
  provider = ground arith;
  client = ground arith;
  rewarded = ground arith;
}

client_complete_again :
    (t now : ℕ) (r : RewardSession)
    → client_complete t (client_complete now r) ≡ client_complete now r
unfolding client_complete refresh_reward_status in_delivery
client_complete_again t now r = ground arith

-- The client's report is refused with nothing written, or the row is written.
abbrev Reports : ℕ → ℕ → ℕ → Database → RewardSession → Type 0
Reports now id user s r =
    Reached now s id r
    × (r.telegram_user_id ≡ user)
    × (mark_client_completed now id user s
        ≡ (ok (view (client_complete now r)), put_reward (client_complete now r) s))

mark_client_completed_cases :
    (now id user : ℕ) (s : Database)
    → ((e : RewardError) × (mark_client_completed now id user s ≡ (err e, s)))
      ⊎ ((r : RewardSession) × Reports now id user s r)
unfolding mark_client_completed
mark_client_completed_cases now id user s = elim (require_own_cases now id user s) [
  | inl (x, t, f) ↦ inl (x, rw f)
  | inr (r, at, own, f) ↦ inr (r, (at, own, rw f))
]

-- In a database that keeps the invariant, a report of the client that is accepted leaves the stored
-- session with the time of the first report and with the confirmation of the provider as it was,
-- and rewarded (or past that) exactly if there was one; the session is of the user, and the answer
-- is its view.
pub mark_client_completed-is_rewarded :
    (now id user : ℕ) (s : Database) (v : RewardSessionView)
    → Inv s
    → (mark_client_completed now id user s).0 ≡ ok v
    → let t = (mark_client_completed now id user s).1 in
      (r : RewardSession) × (q : RewardSession) × (select_reward id s ≡ some r)
      × (r.telegram_user_id ≡ user)
      × (select_reward id t ≡ some q)
      × (v ≡ view q)
      × IsReport now r q
mark_client_completed-is_rewarded now id user s v i e =
    elim (mark_client_completed_cases now id user s) [
      | inl (x, f) ↦ cc
      | inr (r, (at, own, f)) ↦
          let q : RewardSession = client_complete now r in
          let stored : select_reward id (put_reward q s) ≡ some q = ground (
            arith,
            client_complete-id now r,
            lookup-key reward_key id s.rewards r at.0,
            lookup-put reward_key id q r s.rewards,
            found_key now id s i r at.0,
          ) in
          let same : v ≡ view q = cc in
          rw f (
            r,
            q,
            at.0,
            own,
            stored,
            same,
            client_complete-IsReport now r (found_ok now id s i r at.0) at.1,
          )
    ]

-- In a database that keeps the invariant, a client that reports again, directly after a report that
-- was accepted, changes nothing, whenever it does.
pub mark_client_completed_twice :
    (now later id user : ℕ) (s : Database) (v : RewardSessionView)
    → Inv s
    → (mark_client_completed now id user s).0 ≡ ok v
    → let t = (mark_client_completed now id user s).1 in
      (mark_client_completed later id user t).1 ≡ t
mark_client_completed_twice now later id user s v i e =
    elim (mark_client_completed_cases now id user s) [
      | inl (x, f) ↦ cc
      | inr (r, (at, own, f)) ↦ rw f (again r at.0)
    ]
  where
    again :
        (r : RewardSession)
        → select_reward id s ≡ some r
        → (mark_client_completed later id user (put_reward (client_complete now r) s)).1
          ≡ put_reward (client_complete now r) s
    again r found =
        let t = put_reward (client_complete now r) s in
        elim (mark_client_completed_cases later id user t) [
          | inl (x, f) ↦ rw f
          | inr (q, (at, own, f)) ↦
              let same : q ≡ client_complete now r = ground (
                arith,
                client_complete-id now r,
                lookup-key reward_key id s.rewards r found,
                lookup-put reward_key id (client_complete now r) r s.rewards,
                found_key now id s i r found,
                at.0,
              ) in
              rw (f, same, client_complete_again later now r)
                (ap (λ rs. record s { rewards = rs })
                  (put-put reward_key (client_complete now r) s.rewards))
        ]

-- An active session that is found once the overdue ones are expired was there before.
active_before :
    (now user k : ℕ) (s : Database) (r : RewardSession)
    → holds_slot user r ≡ true
    → select_reward k (expire_overdue now user s) ≡ some r
    → select_reward k s ≡ some r
unfolding expire_overdue is_active_status
active_before now user k s r h e = elim (Option-cases (select_reward k s)) [
  | inl f ↦
      ground
        (arith, lookup-update_where reward_key (is_overdue now user) expire (λ r. refl) k s.rewards)
  | inr (q, f) ↦ elim (Bool-cases (is_overdue now user q)) [
    | inl overdue ↦
        ground (
          arith,
          lookup-update_where reward_key (is_overdue now user) expire (λ r. refl) k s.rewards,
        )
    | inr current ↦
        ground (
          arith,
          lookup-update_where reward_key (is_overdue now user) expire (λ r. refl) k s.rewards,
        )
  ]
]

-- In a database that keeps the invariant, a confirmation by the provider that is answered with a
-- session was of the active session of the user; it leaves the stored session with the time of the
-- first confirmation and with the report of the client as it was, and rewarded (or past that)
-- exactly if there was one; the answer is its view.
pub mark_provider_confirmed-is_rewarded :
    (now user : ℕ) (s : Database) (v : RewardSessionView)
    → Inv s
    → (mark_provider_confirmed now user s).0 ≡ ok (some v)
    → let t = (mark_provider_confirmed now user s).1 in
      (r : RewardSession) × (q : RewardSession) × (select_reward v.id s ≡ some r)
      × (holds_slot user r ≡ true)
      × (select_reward v.id t ≡ some q)
      × (v ≡ view q)
      × IsConfirmation now r q
unfolding mark_provider_confirmed view
mark_provider_confirmed-is_rewarded now user s v i e =
    let t = expire_overdue now user s in
    let w : Inv t = expire_overdue-Inv now user s i in
    elim (Option-cases (select_active user t)) [
      | inl f ↦ let h : ok none ≡ ok (some v) = rw (f, mark_provider_confirmed) at e in cc
      | inr (r, f) ↦
          let q : RewardSession = provider_confirm now r in
          let h : ok (some (view q)) ≡ ok (some v) = rw (f, mark_provider_confirmed) at e in
          let same : v ≡ view q = cc in
          let a = active_ok user t w r f in
          let key = active_key user t w r f in
          let made : IsConfirmation now r q = provider_confirm-IsConfirmation now user r a.0 a.1 in
          let found : select_reward r.id s ≡ some r = active_before now user r.id s r a.1 key in
          let stored : select_reward r.id (put_reward q t) ≡ some q =
            ground (arith, made.same_session, lookup-put reward_key r.id q r t.rewards, key) in
          let of_row : v.id ≡ r.id =
            ap (λ (u : RewardSessionView). u.id) same ∙ made.same_session.0 in
          rw (f, mark_provider_confirmed) (r, q, rw of_row found, a.1, rw of_row stored, same, made)
    ]
