-- ===== src/Delivery/Invariant.antt =====
-- The columns of a delivery agree with its status, and the sending of a reward keeps this.
use cine_gate.Base.{
  ℕ, ◌≡◌, ◌⊎◌, is_some, is_none, true, false, Option, some, arith, String, All, lookup, IsUnique,
  put-IsUnique, put_other-IsUnique, All-put,
}
use cine_gate.Models.{
  RewardSession, RewardStatus, UnavailableReason, MovieQuality, Delivery, DeliveryStatus, Database,
}
use cine_gate.Rewards.{select_reward, holds_slot}
use cine_gate.Rewards.Rows.{
  is_rewarded, is_active_status, in_delivery, put_reward, preserve_unavailable,
}
use cine_gate.Rewards.Invariant.{RewardOk, Inv, put_reward-Inv}
use cine_gate.Rewards.Methods.{found_key}
use cine_gate.Delivery.Rows.{
  delivery_key, session_key, put_delivery, settle_delivered, start_sending, start_delivering,
  new_delivery, undo_delivering, undo_sending, mark_sent, mark_delivered,
}

pub record DeliveryOk (d : Delivery) : Type 0 where
  pub sending : d.status ≡ DeliveryStatus.sending → is_some d.send_started_at ≡ true
  pub sent :
      d.status ≡ DeliveryStatus.sent
      → (is_some d.telegram_message_id ≡ true)
        × (is_some d.sent_at ≡ true)
        × (is_some d.next_attempt_at ≡ true)
  pub deleting :
      d.status ≡ DeliveryStatus.deleting
      → (is_some d.telegram_message_id ≡ true)
        × (is_some d.sent_at ≡ true)
        × (is_some d.delete_started_at ≡ true)
  pub deleted :
      d.status ≡ DeliveryStatus.deleted
      → (is_some d.deleted_at ≡ true) × (is_none d.next_attempt_at ≡ true)
  pub failed : d.status ≡ DeliveryStatus.delete_failed → is_none d.next_attempt_at ≡ true

pub record IsConsistent (s : Database) : Type 0 where
  pub rewards : Inv s
  pub unique : IsUnique delivery_key s.deliveries
  -- the constraint `uq_deliveries_reward_session`
  pub one_each : IsUnique session_key s.deliveries
  pub rows : All DeliveryOk s.deliveries

-- The status of a reward that `_prepare` goes on with.
abbrev pub IsReady : RewardSession → Type 0
IsReady r = (r.status ≡ RewardStatus.rewarded) ⊎ (r.status ≡ RewardStatus.unavailable)

pub ready-is_rewarded : (r : RewardSession) → IsReady r → is_rewarded r.status ≡ true
unfolding is_rewarded
ready-is_rewarded r h = ground arith

module _ (now : ℕ) (r : RewardSession) (o : RewardOk r) where
  pub settle_delivered-RewardOk :
      (d : Delivery) → is_rewarded r.status ≡ true → RewardOk (settle_delivered now d r)
  unfolding settle_delivered is_rewarded in_delivery
  settle_delivered-RewardOk d h = ground arith

  pub start_delivering-RewardOk : is_rewarded r.status ≡ true → RewardOk (start_delivering now r)
  unfolding start_delivering is_rewarded in_delivery
  start_delivering-RewardOk h = ground arith

  pub waiting-RewardOk :
      is_rewarded r.status ≡ true → RewardOk (record r { status = RewardStatus.delivering })
  unfolding is_rewarded in_delivery
  waiting-RewardOk h = ground arith

  pub waiting-holds_slot :
      (u : ℕ)
      → IsReady r
      → holds_slot u (record r { status = RewardStatus.delivering }) ≡ true
      → holds_slot u r ≡ true
  unfolding is_rewarded in_delivery is_active_status
  waiting-holds_slot u h k = ground arith

  pub mark_delivered-RewardOk : is_rewarded r.status ≡ true → RewardOk (mark_delivered now r)
  unfolding mark_delivered is_rewarded in_delivery
  mark_delivered-RewardOk h = ground arith

  pub undo_delivering-RewardOk :
      (reason : Option UnavailableReason) → RewardOk (undo_delivering now reason r r.status)
  unfolding undo_delivering preserve_unavailable is_rewarded in_delivery
  undo_delivering-RewardOk reason = ground arith

  -- A reward that is being delivered takes no slot that it did not hold.
  pub start_delivering-holds_slot :
      (u : ℕ) → IsReady r → holds_slot u (start_delivering now r) ≡ true → holds_slot u r ≡ true
  unfolding start_delivering is_rewarded in_delivery is_active_status
  start_delivering-holds_slot u h k = ground arith

  pub undo_delivering-holds_slot :
      (u : ℕ) (reason : Option UnavailableReason)
      → holds_slot u (undo_delivering now reason r r.status) ≡ true
      → holds_slot u r ≡ true
  unfolding undo_delivering preserve_unavailable is_active_status
  undo_delivering-holds_slot u reason k = ground arith

  pub resting-holds_slot :
      (u : ℕ) (d : Delivery)
      → (holds_slot u (settle_delivered now d r) ≡ false)
        × (holds_slot u (mark_delivered now r) ≡ false)
  unfolding settle_delivered mark_delivered is_active_status
  resting-holds_slot u d = (ground arith, ground arith)

module _ (now : ℕ) (d : Delivery) (o : DeliveryOk d) where
  pub start_sending-DeliveryOk : DeliveryOk (start_sending now d)
  unfolding start_sending
  start_sending-DeliveryOk = ground arith

  pub undo_sending-DeliveryOk : (error : String) → DeliveryOk (undo_sending error d d.status)
  unfolding undo_sending
  undo_sending-DeliveryOk error = ground arith

  pub mark_sent-DeliveryOk :
      (message delete_seconds : ℕ) → DeliveryOk (mark_sent now message delete_seconds d)
  unfolding mark_sent
  mark_sent-DeliveryOk message delete_seconds = ground arith

pub new_delivery-DeliveryOk :
    (id : ℕ) (r : RewardSession) (q : MovieQuality) → DeliveryOk (new_delivery id r q)
unfolding new_delivery
new_delivery-DeliveryOk id r q = ground arith

-- A reward row that is found, written back.
pub put_reward-IsConsistent :
    (s : Database) (r old : RewardSession) (id : ℕ)
    → IsConsistent s
    → select_reward id s ≡ some old
    → r.id ≡ old.id
    → RewardOk r
    → ((u : ℕ) → holds_slot u r ≡ true → holds_slot u old ≡ true)
    → IsConsistent (put_reward r s)
put_reward-IsConsistent s r old id c e same o slot = record {
  rewards = put_reward-Inv s r old c.rewards (found_key 0 id s c.rewards old e) same o slot;
  unique = c.unique;
  one_each = c.one_each;
  rows = c.rows;
}

-- A delivery row that is found, written back.
pub put_delivery-IsConsistent :
    (s : Database) (d old : Delivery)
    → IsConsistent s
    → lookup delivery_key old.id s.deliveries ≡ some old
    → d.id ≡ old.id
    → d.reward_session_id ≡ old.reward_session_id
    → DeliveryOk d
    → IsConsistent (put_delivery d s)
put_delivery-IsConsistent s d old c found same session o = record {
  rewards = record {
    unique = c.rewards.unique;
    rows = c.rewards.rows;
    one_active = c.rewards.one_active;
  };
  unique = put-IsUnique delivery_key d s.deliveries c.unique;
  one_each =
      put_other-IsUnique delivery_key session_key d old s.deliveries (rw same found) session
        c.one_each;
  rows = All-put delivery_key DeliveryOk d s.deliveries c.rows o;
}
