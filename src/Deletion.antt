-- ===== src/Deletion.antt =====
-- services/delivery.py from `recover_stale_sends` on, and workers/deletion.py: the recovery of what a
-- crash has left half done, and the deletion of the copies that were sent.
--
-- Each method is one transaction at the clock's value `now`, which stands for the clock of the
-- database too. No other transaction runs beside it, so no row is locked that `skip_locked` would
-- skip. The Bot API is an argument: what `delete_message` answered.
pub mod Invariant
pub mod Recovery
pub mod Claims
mod Examples
use cine_gate.Base.{
  ℕ, ◌+◌, ◌-◌, ◌*◌, ◌^◌, ◌≡◌, ◌==◌, ltb, leb, if◌then◌else◌, is_some, Bool, true, false, ◌&&◌, ◌||◌,
  min, String, Option, none, some, List, [], ◌∷◌, length, take, ok, raise, pure, or_raise,
  transaction, modify, ◌>>=◌, ◌>>◌, update_where, select_where, order_by, lookup, truncate, count,
}
use cine_gate.Models.{seconds, RewardSession, Delivery, DeliveryStatus, Database, ℤ, clamp}
use cine_gate.Rewards.{select_reward}
use cine_gate.Rewards.Rows.{put_reward}
use cine_gate.Delivery.Rows.{DeliveryError, value_error, Tx, put_delivery, undo_delivering, is_sent}

pub record DueDeletion : Type 0 where
  pub delivery_id : ℕ
  pub telegram_user_id : ℕ
  pub telegram_message_id : ℕ
  pub attempts : ℕ

pub is_sending : DeliveryStatus → Bool
is_sending DeliveryStatus.sending = true
is_sending _ = false

pub is_deleting : DeliveryStatus → Bool
is_deleting DeliveryStatus.deleting = true
is_deleting _ = false

-- The column holds a time that is not after `now - wait`.
abbrev pub is_before : ℕ → ℕ → Option ℕ → Bool
is_before now wait none = false
is_before now wait (some t) = leb (t + wait) now

abbrev pub is_stale_send : ℕ → ℕ → Delivery → Bool
is_stale_send now stale d = is_sending d.status && is_before now (seconds stale) d.send_started_at

pub recovered_send : Delivery → Delivery
recovered_send d = record d {
  status = DeliveryStatus.pending;
  send_started_at = none;
  attempts = d.attempts + 1;
  last_error = some "recovered stale sending state";
}

pub recover_send : ℕ → Delivery → Option RewardSession → Database → Database
unfolding recovered_send
recover_send now d none s = put_delivery (recovered_send d) s
recover_send now d (some r) s =
    put_reward (undo_delivering now none r r.status) (put_delivery (recovered_send d) s)

-- The loop over the rows that the query has found.
pub recover_sends : ℕ → List Delivery → Database → Database
unfolding recover_send
recover_sends now [] s = s
recover_sends now (d ∷ ds) s =
    recover_sends now ds (recover_send now d (select_reward d.reward_session_id s) s)

pub recover_stale_sends : ℕ → ℕ → Tx ℕ
unfolding is_sending recover_sends
recover_stale_sends now stale =
    if stale == 0
    then raise value_error
    else transaction (λ s.
      let rows = select_where (is_stale_send now stale) s.deliveries in
      (ok (length rows), recover_sends now rows s))

abbrev pub is_stale_deletion : ℕ → ℕ → Delivery → Bool
is_stale_deletion now stale d =
    is_deleting d.status && is_before now (seconds stale) d.delete_started_at

abbrev pub recovered_deletion : ℕ → Delivery → Delivery
recovered_deletion now d = record d {
  status = DeliveryStatus.sent;
  delete_started_at = none;
  next_attempt_at = some now;
}

pub recover_stale_deletions : ℕ → ℕ → Tx ℕ
unfolding is_deleting
recover_stale_deletions now stale =
    if stale == 0
    then raise value_error
    else transaction (λ s. (
      ok (count (is_stale_deletion now stale) s.deliveries),
      record s {
        deliveries =
            update_where (is_stale_deletion now stale) (recovered_deletion now) s.deliveries;
      },
    ))

abbrev pub is_due : ℕ → Delivery → Bool
is_due now d =
    is_sent d.status && is_some d.telegram_message_id && is_before now 0 d.next_attempt_at

-- `ORDER BY next_attempt_at, id`; a row that is due has a time.
pub due_first : Delivery → Delivery → Bool
due_first d e = elim d.next_attempt_at [
  | none ↦ false
  | some t ↦ elim e.next_attempt_at [ none ↦ true | some u ↦ ltb t u || t == u && leb d.id e.id ]
]

-- 48 hours.
abbrev pub delete_max_age : ℕ
delete_max_age = seconds 172800

abbrev pub given_up : Delivery → Delivery
given_up d = record d {
  status = DeliveryStatus.delete_failed;
  next_attempt_at = none;
  last_error = some "Telegram delete window exceeded 48 hours";
}

abbrev pub start_deleting : ℕ → Delivery → Delivery
start_deleting now d = record d { status = DeliveryStatus.deleting; delete_started_at = some now }

abbrev pub task_of : Delivery → ℕ → DueDeletion
task_of d message = record {
  delivery_id = d.id;
  telegram_user_id = d.telegram_user_id;
  telegram_message_id = message;
  attempts = d.attempts;
}

-- The loop of `claim_due_deletions`; without a message `int` raises.
pub claim_rows : ℕ → List Delivery → Tx (List DueDeletion)
claim_rows now [] = pure []
claim_rows now (d ∷ ds) =
    let rest = claim_rows now ds in
    if is_before now delete_max_age d.sent_at
    then (do modify (put_delivery (given_up d)); rest)
    else (do
      modify (put_delivery (start_deleting now d))
      message ← or_raise d.telegram_message_id value_error
      tasks ← rest
      pure (task_of d message ∷ tasks))

pub due_rows : ℕ → ℤ → Database → List Delivery
unfolding due_first
due_rows now limit s =
    take (clamp 1 100 limit) (order_by due_first (select_where (is_due now) s.deliveries))

pub claim_due_deletions : ℕ → ℤ → Tx (List DueDeletion)
unfolding claim_rows due_rows
claim_due_deletions now limit = transaction (λ s. claim_rows now (due_rows now limit s) s)

-- The row under the key that is being deleted, changed.
abbrev pub update_deleting : ℕ → (Delivery → Delivery) → Database → Database
update_deleting id f s =
    let p : Delivery → Bool = λ d. d.id == id && is_deleting d.status in
    record s { deliveries = update_where p f s.deliveries }

abbrev pub deleted_row : ℕ → Delivery → Delivery
deleted_row now d = record d {
  status = DeliveryStatus.deleted;
  deleted_at = some now;
  delete_started_at = none;
  next_attempt_at = none;
  last_error = none;
}

abbrev pub failed_row : String → Delivery → Delivery
failed_row error d = record d {
  status = DeliveryStatus.delete_failed;
  attempts = d.attempts + 1;
  last_error = some (truncate 1000 error);
  delete_started_at = none;
  next_attempt_at = none;
}

-- `min(300, 5 * 2 ** min(attempts - 1, 6))` for the new number of attempts.
pub backoff_seconds : ℕ → ℕ
backoff_seconds attempts = min 300 (5 * 2 ^ min (attempts - 1) 6)

pub rescheduled_row : ℕ → String → Delivery → Delivery
unfolding backoff_seconds
rescheduled_row now error d = record d {
  status = DeliveryStatus.sent;
  attempts = d.attempts + 1;
  last_error = some (truncate 1000 error);
  delete_started_at = none;
  next_attempt_at = some (now + seconds (backoff_seconds (d.attempts + 1)));
}

pub mark_deleted : ℕ → ℕ → Tx (Unit {0})
unfolding is_deleting
mark_deleted now id = transaction (modify (update_deleting id (deleted_row now)))

pub mark_delete_failed : ℕ → String → Tx (Unit {0})
unfolding is_deleting
mark_delete_failed id error = transaction (modify (update_deleting id (failed_row error)))

pub reschedule_delete : ℕ → ℕ → String → Tx (Unit {0})
unfolding is_deleting rescheduled_row
reschedule_delete now id error =
    transaction (modify (update_deleting id (rescheduled_row now error)))

-- What `delete_message` answered. The Boolean of a bad request says whether its text names a missing
-- message.
pub data DeleteAnswer : Type 0 where
  done : DeleteAnswer
  bad_request : Bool → String → DeleteAnswer
  forbidden : String → DeleteAnswer
  api_error : String → DeleteAnswer

-- `_delete_one` of the worker, by the answer.
pub delete_one : ℕ → DueDeletion → DeleteAnswer → Tx (Unit {0})
unfolding mark_deleted mark_delete_failed reschedule_delete
delete_one now item done = mark_deleted now item.delivery_id
delete_one now item (bad_request true error) = mark_deleted now item.delivery_id
delete_one now item (bad_request false error) = mark_delete_failed item.delivery_id error
delete_one now item (forbidden error) = mark_delete_failed item.delivery_id error
delete_one now item (api_error error) = reschedule_delete now item.delivery_id error
