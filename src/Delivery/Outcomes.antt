-- ===== src/Delivery/Outcomes.antt =====
-- What follows a preparation: another preparation, a failed copy, or a copy that is made.
use cine_gate.Base.{
  ℕ, ◌+◌, ◌≡◌, ap, refl, if◌then◌else◌, is_some, none, some, ok, arith, String, lookup, put,
  lookup-put, lookup-put_other, truncate,
}
use cine_gate.Models.{seconds, RewardSession, RewardStatus, Delivery, DeliveryStatus, Database}
use cine_gate.Rewards.{select_reward}
use cine_gate.Rewards.Rows.{reward_key, put_reward, in_delivery}
use cine_gate.Rewards.Invariant.{RewardOk}
use cine_gate.Rewards.Methods.{found_ok}
use cine_gate.Delivery.Rows.{
  Render, PreparedDelivery, DeliveryResult, delivered, prepared, finished, processing,
  simple_result, sent_result, delivery_key, session_key, put_delivery, start_sending,
  start_delivering, undo_delivering, undo_sending, mark_sent, mark_delivered, is_sent,
}
use cine_gate.Delivery.{prepare, reset_failed_send, finalize_sent, reset_rows, select_delivery_of}
use cine_gate.Delivery.Invariant.{IsConsistent, IsReady}
use cine_gate.Delivery.Preparing.{IsSource}
use cine_gate.Delivery.Sending.{IsPrepared, prepare-IsPrepared}

-- What a failed send undoes is what the preparation did.
undo_delivering-start_delivering :
    (now later : ℕ) (r : RewardSession)
    → RewardOk r
    → IsReady r
    → undo_delivering later none (start_delivering now r) RewardStatus.delivering
      ≡ record r { delivery_started_at = none }
unfolding undo_delivering start_delivering in_delivery
undo_delivering-start_delivering now later r o ready =
    let same : (if is_some r.unavailable_at
          then RewardStatus.unavailable
          else RewardStatus.rewarded)
        ≡ r.status =
      ground (arith, ready, o.retained, o.set_aside) in
    ap (λ st. record r { status = st; delivery_started_at = none }) same

module _ (render : Render) (now new_id id : ℕ) (s : Database) (c : IsConsistent s)
    (fresh : lookup delivery_key new_id s.deliveries ≡ none) (p : PreparedDelivery) (t : Database)
    (done : prepare render now new_id id s ≡ (ok (prepared p), t)) where
  -- In consistent tables, directly after a preparation that hands a delivery to the Bot API,
  -- another request for it, at any time, is told `processing` and writes nothing.
  pub prepare_exclusive :
      (later other_id : ℕ)
      → prepare render later other_id id t ≡ (ok (finished (simple_result processing)), t)
  unfolding prepare start_delivering
  prepare_exclusive later other_id =
      let (r, d, e, at) = prepare-IsPrepared render now new_id id s c fresh p t done in
      rw (at.reward_row, prepare)

  -- The rows after the copy is recorded.
  module _ (r : RewardSession) (d : Delivery) (at : IsPrepared now new_id id s r d p t)
      (later message : ℕ) where
    abbrev sent_row : Delivery
    sent_row = mark_sent later message p.delete_seconds (start_sending now d)

    abbrev delivered_row : RewardSession
    delivered_row = mark_delivered later (start_delivering now r)

    abbrev after : Database
    after = put_reward delivered_row (put_delivery sent_row t)

    finalize_sent_state :
        finalize_sent later id p.delivery_id message p.delete_seconds t
        ≡ (ok (sent_result sent_row), after)
    unfolding finalize_sent is_sent start_sending start_delivering
    finalize_sent_state = rw (at.names_delivery, at.reward_row, at.delivery_row) refl

    after-reward : select_reward id after ≡ some delivered_row
    unfolding mark_delivered start_delivering
    after-reward = ground (
      arith,
      at.same_reward,
      at.reward_row,
      lookup-put reward_key id delivered_row (start_delivering now r) t.rewards,
    )

    after-delivery : select_delivery_of id after ≡ some sent_row
    unfolding mark_sent start_sending
    after-delivery = ground (
      arith,
      at.of_reward,
      at.session_row,
      at.delivery_row,
      lookup-put_other delivery_key session_key id sent_row (start_sending now d) t.deliveries,
    )

    prepare-after :
        (render : Render) (again other_id : ℕ)
        → prepare render again other_id id after ≡ (ok (finished (sent_result sent_row)), after)
    unfolding prepare mark_delivered start_delivering
    prepare-after render again other_id =
        rw (after-reward, prepare, at.same_reward, after-delivery) refl

  reset_row :
      (r : RewardSession) (d : Delivery)
      → select_reward id s ≡ some r
      → IsPrepared now new_id id s r d p t
      → (later : ℕ)
      → lookup reward_key id (
          put reward_key
            (undo_delivering later none (start_delivering now r) RewardStatus.delivering)
            t.rewards)
        ≡ some (record r { delivery_started_at = none })
  unfolding start_delivering
  reset_row r d e at later =
      rw (undo_delivering-start_delivering now later r (found_ok 0 id s c.rewards r e) at.ready) (
        ground (
          arith,
          at.same_reward,
          at.reward_row,
          lookup-put reward_key id (record r { delivery_started_at = none })
              (start_delivering now r) t.rewards,
        ))

  reset_delivery_row :
      (r : RewardSession) (d : Delivery)
      → IsPrepared now new_id id s r d p t
      → (error : String)
      → lookup session_key id (
          put delivery_key
            (undo_sending error (start_sending now d) DeliveryStatus.sending)
            t.deliveries)
        ≡ some (undo_sending error (start_sending now d) DeliveryStatus.sending)
  unfolding undo_sending start_sending
  reset_delivery_row r d at error = ground (
    arith,
    at.of_reward,
    at.session_row,
    at.delivery_row,
    lookup-put_other delivery_key session_key id
        (undo_sending error (start_sending now d) DeliveryStatus.sending) (start_sending now d)
        t.deliveries,
  )

  -- In consistent tables, when the copy of a preparation is recorded directly after it, the answer
  -- has the message and its time of deletion, and the next request, at any time, is given the same
  -- answer and writes nothing.
  pub finalize_sent_once :
      (later message again other_id : ℕ)
      → let result = finalize_sent later id p.delivery_id message p.delete_seconds t in
        let answer : DeliveryResult = record {
          status = delivered;
          telegram_message_id = some message;
          delete_at = some (later + seconds p.delete_seconds);
        } in
        (result.0 ≡ ok answer)
        × (prepare render again other_id id result.1 ≡ (ok (finished answer), result.1))
  unfolding mark_sent
  finalize_sent_once later message again other_id =
      let (r, d, e, at) = prepare-IsPrepared render now new_id id s c fresh p t done in
      rw (finalize_sent_state r d at later message)
        (refl, prepare-after r d at later message render again other_id)

  -- In consistent tables, when the copy of a preparation fails for a reason that may pass, the
  -- reset directly after it leaves the reward as it was before the preparation, but for the start
  -- of its delivery, which is cleared, and the delivery of the session pending, with the error cut
  -- to 1000 characters and one attempt more than it had before the preparation, or than none where
  -- it is a new row.
  pub reset_failed_send_back :
      (later : ℕ) (error : String)
      → let u = (reset_failed_send later id p.delivery_id error none t).1 in
        (r : RewardSession) × (d : Delivery) × (select_reward id s ≡ some r)
        × IsSource new_id id s d
        × (select_reward id u ≡ some (record r { delivery_started_at = none }))
        × (select_delivery_of id u
            ≡ some (record d {
              status = DeliveryStatus.pending;
              send_started_at = none;
              attempts = d.attempts + 1;
              last_error = some (truncate 1000 error);
            }))
  unfolding reset_failed_send reset_rows undo_delivering undo_sending start_delivering start_sending
  reset_failed_send_back later error =
      let (r, d, e, at) = prepare-IsPrepared render now new_id id s c fresh p t done in
      rw (at.names_delivery, at.reward_row, at.delivery_row)
        (r, d, e, at.source, reset_row r d e at later, reset_delivery_row r d at error)
