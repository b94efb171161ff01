-- ===== src/Delivery.antt =====
-- services/delivery.py and domain/delivery.py: the sending of a rewarded quality.
--
-- Each block under `session.begin()` is one transaction, at the clock's value `now`. The Bot API is
-- an argument: what `copy_message` answered. The rendering of the caption by the template service
-- is the argument `render`, `none` where it raises.
pub mod Rows
pub mod Invariant
pub mod Preparing
pub mod Sending
pub mod Outcomes
mod Examples
use cine_gate.Base.{
  ℕ, ◌+◌, ◌≡◌, ◌==◌, ltb, leb, if◌then◌else◌, is_some, is_none, or_else, Bool, true, false, not,
  ◌&&◌, ◌||◌, String, Option, none, some, List, [], ◌∷◌, Exec, Result, ok, err, pure, raise, gets,
  or_raise, transaction, modify, ◌>>=◌, ◌>>◌, update_where, select_first, lookup, put, truncate,
}
use cine_gate.Models.{
  seconds, Movie, MovieQuality, RewardSession, RewardStatus, UnavailableReason,
  archive_source_missing, Delivery, DeliveryStatus, Database, SettingValue, integer, setting, clamp,
}
use cine_gate.Rewards.{select_reward}
use cine_gate.Rewards.Rows.{
  put_reward, movie_key, quality_key, availability_reason, preserve_unavailable,
}
use Rows.{
  DeliveryOutcome, DeliveryResult, PreparedDelivery, Preparation, DeliveryError, Tx, Render,
  delivery_key, session_key, put_delivery, simple_result, sent_result, bounded_delete_seconds,
  new_delivery, settle_delivered, start_sending, start_delivering, begin_send, ensure_delivery,
  undo_delivering, undo_sending, mark_sent, mark_delivered, is_sent, CopyAnswer, delivered,
  processing, unavailable, retryable, prepared, finished, reward_not_ready, template_error,
  assertion_error, copied, bad_request, api_error,
}

-- `_prepare` on a reward that may be delivered, given its movie and quality.
pub prepare_available :
    Render
    → ℕ
    → ℕ
    → RewardSession
    → Option Delivery
    → Option Movie
    → Option MovieQuality
    → Tx Preparation
unfolding ensure_delivery begin_send
prepare_available render now new_id r existing (some m) (some q) = do
  value ← gets (λ s. setting "movie_delete_seconds" s.settings)
  rendered ← gets (λ s. render s m q (bounded_delete_seconds value))
  caption ← or_raise rendered template_error
  d ← ensure_delivery new_id r q existing
  begin_send now r q caption (bounded_delete_seconds value) d d.status
prepare_available render now new_id r existing m q = raise assertion_error

pub prepare_checked :
    Render
    → ℕ
    → ℕ
    → RewardSession
    → Option Delivery
    → Option Movie
    → Option MovieQuality
    → Option UnavailableReason
    → Tx Preparation
unfolding prepare_available
prepare_checked render now new_id r existing m q (some reason) = do
  modify (put_reward (preserve_unavailable reason now r))
  pure (finished (simple_result unavailable))
prepare_checked render now new_id r existing m q none =
    prepare_available render now new_id r existing m q

-- `_prepare` on a reward whose status is `rewarded` or `unavailable`.
pub prepare_ready : Render → ℕ → ℕ → RewardSession → Option Delivery → Tx Preparation
unfolding prepare_checked
prepare_ready render now new_id r existing = do
  q ← gets (λ s. lookup quality_key r.movie_quality_id s.qualities)
  m ← gets (λ s. lookup movie_key r.movie_id s.movies)
  prepare_checked render now new_id r existing m q (availability_reason r m q)

answer_delivered : Option Delivery → Tx Preparation
answer_delivered none = raise reward_not_ready
answer_delivered (some d) = pure (finished (sent_result d))

-- `_prepare` by the status of the reward.
pub prepare_by_status :
    Render → ℕ → ℕ → RewardSession → Option Delivery → RewardStatus → Tx Preparation
unfolding prepare_ready answer_delivered
prepare_by_status render now new_id r existing RewardStatus.delivered = answer_delivered existing
prepare_by_status render now new_id r existing RewardStatus.delivering =
    pure (finished (simple_result processing))
prepare_by_status render now new_id r existing RewardStatus.rewarded =
    prepare_ready render now new_id r existing
prepare_by_status render now new_id r existing RewardStatus.unavailable =
    prepare_ready render now new_id r existing
prepare_by_status render now new_id r existing _ = raise reward_not_ready

abbrev pub select_delivery_of : ℕ → Database → Option Delivery
select_delivery_of reward s = lookup session_key reward s.deliveries

-- `_prepare`.
pub prepare : Render → ℕ → ℕ → ℕ → Tx Preparation
unfolding prepare_by_status
prepare render now new_id id = transaction (do
  found ← gets (select_reward id)
  r ← or_raise found reward_not_ready
  existing ← gets (select_delivery_of r.id)
  prepare_by_status render now new_id r existing r.status)

pub reset_rows :
    ℕ
    → String
    → Option UnavailableReason
    → Option RewardSession
    → Option Delivery
    → Database
    → Database
reset_rows now error reason (some r) (some d) s =
    put_delivery (undo_sending error d d.status)
      (put_reward (undo_delivering now reason r r.status) s)
reset_rows now error reason _ _ s = s

abbrev pub select_delivery : ℕ → Database → Option Delivery
select_delivery id s = lookup delivery_key id s.deliveries

-- `_reset_failed_send`.
pub reset_failed_send : ℕ → ℕ → ℕ → String → Option UnavailableReason → Tx (Unit {0})
unfolding reset_rows undo_delivering undo_sending
reset_failed_send now id delivery_id error reason = transaction (λ s.
    (ok tt, reset_rows now error reason (select_reward id s) (select_delivery delivery_id s) s))

-- `_finalize_sent`.
pub finalize_sent : ℕ → ℕ → ℕ → ℕ → ℕ → Tx DeliveryResult
unfolding is_sent mark_sent mark_delivered
finalize_sent now id delivery_id message delete_seconds = transaction (do
  found ← gets (select_reward id)
  row ← gets (select_delivery delivery_id)
  r ← or_raise found reward_not_ready
  d ← or_raise row reward_not_ready
  if is_sent d.status then pure (sent_result d) else do
    modify (put_delivery (mark_sent now message delete_seconds d))
    modify (put_reward (mark_delivered now r))
    pure (sent_result (mark_sent now message delete_seconds d)))

pub after_copy : ℕ → ℕ → PreparedDelivery → CopyAnswer → Tx DeliveryResult
unfolding finalize_sent reset_failed_send
after_copy now id p (copied message) = finalize_sent now id p.delivery_id message p.delete_seconds
after_copy now id p (bad_request true error) = do
  reset_failed_send now id p.delivery_id error (some archive_source_missing)
  pure (simple_result unavailable)
after_copy now id p (bad_request false error) = do
  reset_failed_send now id p.delivery_id error none
  pure (simple_result retryable)
after_copy now id p (api_error error) = do
  reset_failed_send now id p.delivery_id error none
  pure (simple_result retryable)

pub send : ℕ → ℕ → (PreparedDelivery → CopyAnswer) → Preparation → Tx DeliveryResult
unfolding after_copy
send now id copy_message (finished result) = pure result
send now id copy_message (prepared p) = after_copy now id p (copy_message p)

-- `deliver`, with no other transaction between its two; `later` is the clock after the copy.
pub deliver : Render → (PreparedDelivery → CopyAnswer) → ℕ → ℕ → ℕ → ℕ → Tx DeliveryResult
unfolding prepare send
deliver render copy_message now later new_id id = do
  preparation ← prepare render now new_id id
  send later id copy_message preparation
