-- ===== src/Rewards/Invariant.antt =====
-- What every method of the reward service keeps.
use cine_gate.Base.{
  ℕ, ◌≤◌, ◌≡◌, refl, is_some, true, some, arith, All, count, lookup, IsUnique, count-put,
  put-IsUnique, All-put, All-update_where, update_where-IsUnique, count-update_where-le,
}
use cine_gate.Models.{RewardSession, RewardStatus, Database}
use cine_gate.Rewards.Rows.{
  is_active_status, is_rewarded, is_expirable, is_expired_status, in_delivery, reward_key,
  put_reward, refresh_reward_status,
}
use cine_gate.Rewards.{
  is_overdue, expire, expire_overdue, holds_slot, client_complete, provider_confirm,
}
use cine_gate.Rewards.Access.{IsCurrent}

-- The columns of a session agree with its status.
pub record RewardOk (r : RewardSession) : Type 0 where
  -- a reward rests on both confirmations
  pub earned :
      is_rewarded r.status ≡ true
      → (is_some r.client_completed_at ≡ true) × (is_some r.provider_confirmed_at ≡ true)
  -- what was set aside was earned, and stays in the states of delivery
  pub set_aside : is_some r.unavailable_at ≡ true → in_delivery r.status ≡ true
  pub retained : r.status ≡ RewardStatus.unavailable → is_some r.unavailable_at ≡ true

-- `one_active` is the unique index `uq_reward_sessions_active_user`.
pub record Inv (s : Database) : Type 0 where
  pub unique : IsUnique reward_key s.rewards
  pub rows : All RewardOk s.rewards
  pub one_active : (user : ℕ) → count (holds_slot user) s.rewards ≤ 1

-- A row that is written back must agree with its status, and take no slot that it did not hold.
pub put_reward-Inv :
    (s : Database) (r old : RewardSession)
    → Inv s
    → lookup reward_key old.id s.rewards ≡ some old
    → r.id ≡ old.id
    → RewardOk r
    → ((user : ℕ) → holds_slot user r ≡ true → holds_slot user old ≡ true)
    → Inv (put_reward r s)
put_reward-Inv s r old v found same o slot =
    let e : lookup reward_key r.id s.rewards ≡ some old = rw same found in
    record {
      unique = put-IsUnique reward_key r s.rewards v.unique;
      rows = All-put reward_key RewardOk r s.rewards v.rows o;
      one_active = λ user. ground (
        arith,
        count-put reward_key (holds_slot user) r old s.rewards,
        v.one_active user,
        slot user,
      );
    }

pub expire-RewardOk :
    (now user : ℕ) (r : RewardSession)
    → is_overdue now user r ≡ true
    → RewardOk r
    → RewardOk (expire r)
unfolding is_expirable in_delivery is_rewarded
expire-RewardOk now user r h o = ground arith

expire-holds_slot :
    (u : ℕ) (r : RewardSession) → holds_slot u (expire r) ≡ true → holds_slot u r ≡ true
unfolding is_active_status
expire-holds_slot u r h = ground arith

pub expire_overdue-Inv : (now user : ℕ) (s : Database) → Inv s → Inv (expire_overdue now user s)
unfolding expire_overdue
expire_overdue-Inv now user s v = record {
  unique =
      update_where-IsUnique reward_key (is_overdue now user) expire (λ r. refl) s.rewards v.unique;
  rows =
      All-update_where RewardOk (is_overdue now user) expire (expire-RewardOk now user) s.rewards
        v.rows;
  one_active = λ u. omega (
    arith,
    v.one_active u,
    count-update_where-le (holds_slot u) (is_overdue now user) expire
        (λ r _ k. expire-holds_slot u r k) s.rewards,
  );
}

-- The writes that the methods make to a row.
module _ (now : ℕ) (r : RewardSession) (o : RewardOk r) where
  pub client_complete-RewardOk : RewardOk (client_complete now r)
  unfolding client_complete refresh_reward_status in_delivery is_rewarded
  client_complete-RewardOk = ground arith

  pub provider_confirm-RewardOk : RewardOk (provider_confirm now r)
  unfolding provider_confirm refresh_reward_status in_delivery is_rewarded
  provider_confirm-RewardOk = ground arith

  pub client_complete-holds_slot :
      IsCurrent now r
      → (u : ℕ) → holds_slot u (client_complete now r) ≡ true
      → holds_slot u r ≡ true
  unfolding client_complete refresh_reward_status in_delivery is_active_status is_expired_status
  client_complete-holds_slot c u h = ground arith

  pub provider_confirm-holds_slot :
      (u v : ℕ)
      → holds_slot v r ≡ true
      → holds_slot u (provider_confirm now r) ≡ true
      → holds_slot u r ≡ true
  unfolding provider_confirm refresh_reward_status in_delivery is_active_status
  provider_confirm-holds_slot u v k h = ground arith

pub client_complete-id : (now : ℕ) (r : RewardSession) → (client_complete now r).id ≡ r.id
unfolding client_complete refresh_reward_status
client_complete-id now r = ground arith

pub provider_confirm-id : (now : ℕ) (r : RewardSession) → (provider_confirm now r).id ≡ r.id
unfolding provider_confirm refresh_reward_status
provider_confirm-id now r = ground arith
