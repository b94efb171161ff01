-- ===== src/Delivery/Rows.antt =====
-- The values of domain/delivery.py and the rows that services/delivery.py writes when it sends.
use cine_gate.Base.{
  ℕ, ◌+◌, if◌then◌else◌, is_some, or_else, Bool, true, false, String, Option, none, some, ◌∷◌, Exec,
  ok, pure, modify, ◌>>◌, put, truncate,
}
use cine_gate.Models.{
  seconds, Movie, MovieQuality, RewardSession, RewardStatus, UnavailableReason, Delivery,
  DeliveryStatus, Database, SettingValue, integer, clamp,
}
use cine_gate.Rewards.Rows.{put_reward, preserve_unavailable}

pub data DeliveryOutcome : Type 0 where
  delivered processing unavailable retryable : DeliveryOutcome

pub record DeliveryResult : Type 0 where
  pub status : DeliveryOutcome
  pub telegram_message_id : Option ℕ
  pub delete_at : Option ℕ

-- `caption` stands for the text with its entities.
pub record PreparedDelivery : Type 0 where
  pub delivery_id : ℕ
  pub telegram_user_id : ℕ
  pub archive_channel_id : ℕ
  pub archive_message_id : ℕ
  pub caption : String
  pub delete_seconds : ℕ

-- `_PreparedDelivery | DeliveryResult`.
pub data Preparation : Type 0 where
  prepared : PreparedDelivery → Preparation
  finished : DeliveryResult → Preparation

-- `template_error` is any exception of the rendering; `assertion_error` that of the assert.
pub data DeliveryError : Type 0 where
  reward_not_ready template_error assertion_error value_error : DeliveryError

abbrev pub Tx : Type 0 → Type 0
Tx = Exec Database DeliveryError

abbrev pub Render : Type 0
Render = Database → Movie → MovieQuality → ℕ → Option String

abbrev pub delivery_key : Delivery → ℕ
delivery_key d = d.id

abbrev pub session_key : Delivery → ℕ
session_key d = d.reward_session_id

abbrev pub put_delivery : Delivery → Database → Database
put_delivery d s = record s { deliveries = put delivery_key d s.deliveries }

abbrev pub simple_result : DeliveryOutcome → DeliveryResult
simple_result o = record { status = o; telegram_message_id = none; delete_at = none }

abbrev pub sent_result : Delivery → DeliveryResult
sent_result d = record {
  status = delivered;
  telegram_message_id = d.telegram_message_id;
  delete_at = d.delete_at;
}

-- `_bounded_delete_seconds`.
unfoldable pub bounded_delete_seconds : Option SettingValue → ℕ
bounded_delete_seconds (some (integer n)) = clamp 5 172000 n
bounded_delete_seconds _ = 120

unfoldable pub new_delivery : ℕ → RewardSession → MovieQuality → Delivery
new_delivery id r q = record {
  id = id;
  reward_session_id = r.id;
  telegram_user_id = r.telegram_user_id;
  movie_quality_id = q.id;
  status = DeliveryStatus.pending;
  telegram_message_id = none;
  send_started_at = none;
  sent_at = none;
  delete_at = none;
  next_attempt_at = none;
  delete_started_at = none;
  deleted_at = none;
  attempts = 0;
  last_error = none;
}

-- The reward whose delivery has been sent before.
unfoldable pub settle_delivered : ℕ → Delivery → RewardSession → RewardSession
settle_delivered now d r = record r {
  status = RewardStatus.delivered;
  delivered_at = some (or_else r.delivered_at (or_else d.sent_at now));
}

unfoldable pub start_sending : ℕ → Delivery → Delivery
start_sending now d = record d {
  status = DeliveryStatus.sending;
  send_started_at = some now;
  last_error = none;
}

unfoldable pub start_delivering : ℕ → RewardSession → RewardSession
start_delivering now r = record r {
  status = RewardStatus.delivering;
  delivery_started_at = some now;
}

-- The end of `_prepare`, by the status of the delivery row, which is in the table.
unfoldable pub begin_send :
    ℕ → RewardSession → MovieQuality → String → ℕ → Delivery → DeliveryStatus → Tx Preparation
unfolding settle_delivered start_sending start_delivering
begin_send now r q caption delete_seconds d DeliveryStatus.sent = do
  modify (put_reward (settle_delivered now d r))
  pure (finished (sent_result d))
begin_send now r q caption delete_seconds d DeliveryStatus.deleted = do
  modify (put_reward (settle_delivered now d r))
  pure (finished (sent_result d))
begin_send now r q caption delete_seconds d DeliveryStatus.sending = do
  modify (put_reward (record r { status = RewardStatus.delivering }))
  pure (finished (simple_result processing))
begin_send now r q caption delete_seconds d _ = do
  modify (put_reward (start_delivering now r))
  modify (put_delivery (start_sending now d))
  pure (
      prepared (record {
        delivery_id = d.id;
        telegram_user_id = r.telegram_user_id;
        archive_channel_id = q.archive_channel_id;
        archive_message_id = q.archive_message_id;
        caption = caption;
        delete_seconds = delete_seconds;
      }))

-- `if delivery is None: delivery = Delivery(...)`; `new_id` is the identifier of a new row.
unfoldable pub ensure_delivery : ℕ → RewardSession → MovieQuality → Option Delivery → Tx Delivery
unfolding new_delivery
ensure_delivery new_id r q (some d) s = (ok d, s)
ensure_delivery new_id r q none s =
    let d = new_delivery new_id r q in (ok d, record s { deliveries = d ∷ s.deliveries })

-- The reward after a send that failed.
unfoldable pub undo_delivering :
    ℕ → Option UnavailableReason → RewardSession → RewardStatus → RewardSession
undo_delivering now (some reason) r RewardStatus.delivering = preserve_unavailable reason now r
undo_delivering now none r RewardStatus.delivering = record r {
  status = if is_some r.unavailable_at then RewardStatus.unavailable else RewardStatus.rewarded;
  delivery_started_at = none;
}
undo_delivering now reason r _ = r

unfoldable pub undo_sending : String → Delivery → DeliveryStatus → Delivery
undo_sending error d DeliveryStatus.sending = record d {
  status = DeliveryStatus.pending;
  send_started_at = none;
  attempts = d.attempts + 1;
  last_error = some (truncate 1000 error);
}
undo_sending error d _ = d

unfoldable pub mark_sent : ℕ → ℕ → ℕ → Delivery → Delivery
mark_sent now message delete_seconds d = record d {
  status = DeliveryStatus.sent;
  telegram_message_id = some message;
  sent_at = some now;
  delete_at = some (now + seconds delete_seconds);
  next_attempt_at = some (now + seconds delete_seconds);
  send_started_at = none;
  last_error = none;
}

unfoldable pub mark_delivered : ℕ → RewardSession → RewardSession
mark_delivered now r = record r {
  status = RewardStatus.delivered;
  delivered_at = some now;
  delivery_started_at = none;
}

unfoldable pub is_sent : DeliveryStatus → Bool
is_sent DeliveryStatus.sent = true
is_sent _ = false

-- What `copy_message` answered. The Boolean of a bad request says whether its text names a missing
-- source message.
pub data CopyAnswer : Type 0 where
  copied : ℕ → CopyAnswer
  bad_request : Bool → String → CopyAnswer
  api_error : String → CopyAnswer
