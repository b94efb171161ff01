-- ===== src/Deletion/Examples.antt =====
-- The theorems on the recovery and the deletion at a small database, and tests of their code.
use cine_gate.Base.{
  count, min, ◌+◌, ◌&&◌, ◌≤◌, ◌≡◌, refl, some, none, List, [], ◌∷◌, arith, ok, All, length, lookup,
  count, put, select_where, order_by, insert_by,
}
use cine_gate.Models.{Delivery, DeliveryStatus, Database, pos, clamp}
use cine_gate.Delivery.Rows.{is_sent}
use cine_gate.Delivery.Invariant.{DeliveryOk, IsConsistent}
use cine_gate.Deletion.{
  DueDeletion, due_rows, claim_rows, claim_due_deletions, delete_one, api_error, backoff_seconds,
  start_deleting, recover_stale_sends,
}
use cine_gate.Deletion.Invariant.{delete_one-IsConsistent}
use cine_gate.Deletion.Recovery.{recover_stale_sends-IsConsistent}
use cine_gate.Deletion.Claims.{IsTask, is_waiting, is_older, claim_due_deletions_lem}

-- A copy that was sent at time 20 and is to be deleted at time 60.
abbrev copy : Delivery
copy = record {
  id = 9;
  reward_session_id = 3;
  telegram_user_id = 7;
  movie_quality_id = 5;
  status = DeliveryStatus.sent;
  telegram_message_id = some 77;
  send_started_at = none;
  sent_at = some 20;
  delete_at = some 60;
  next_attempt_at = some 60;
  delete_started_at = none;
  deleted_at = none;
  attempts = 0;
  last_error = none;
}

-- A send that began at time 0.
abbrev stuck : Delivery
stuck = record copy {
  id = 10;
  reward_session_id = 4;
  status = DeliveryStatus.sending;
  telegram_message_id = none;
  send_started_at = some 0;
  sent_at = none;
  next_attempt_at = none;
}

abbrev shop : Database
shop = record {
  movies = [];
  qualities = [];
  rewards = [];
  deliveries = copy ∷ stuck ∷ [];
  settings = [];
}

copy-DeliveryOk : DeliveryOk copy
copy-DeliveryOk = ground arith

stuck-DeliveryOk : DeliveryOk stuck
stuck-DeliveryOk = ground arith

shop-IsConsistent : IsConsistent shop
unfolding count lookup
shop-IsConsistent = record {
  rewards = record { unique = tt; rows = tt; one_active = λ u. omega arith };
  unique = (refl, (refl, tt));
  one_each = (refl, (refl, tt));
  rows = (copy-DeliveryOk, (stuck-DeliveryOk, tt));
}

abbrev task : DueDeletion
task = record { delivery_id = 9; telegram_user_id = 7; telegram_message_id = 77; attempts = 0 }

claim_lem :
    claim_due_deletions 60 (pos 10) shop
    ≡ (ok (task ∷ []), record shop { deliveries = start_deleting 60 copy ∷ stuck ∷ [] })
unfolding claim_due_deletions due_rows claim_rows is_sent select_where order_by insert_by clamp put
claim_lem = refl

-- The back-off doubles from 5 seconds and stops at 300.
backoff_first : backoff_seconds 1 ≡ 5
unfolding backoff_seconds
backoff_first = refl

backoff_last : backoff_seconds 9 ≡ 300
unfolding backoff_seconds
backoff_last = refl

claim_due_deletions_lem_example :
    (tasks : List DueDeletion) × (u : Database) × (claim_due_deletions 60 (pos 10) shop
      ≡ (ok tasks, u))
    × IsConsistent u
    × All (IsTask 60 shop u) tasks
    × (length tasks ≤ clamp 1 100 (pos 10))
    × (min (clamp 1 100 (pos 10)) (count (is_waiting 60) shop.deliveries)
        ≤ length tasks + count (λ d. is_waiting 60 d && is_older 60 d) shop.deliveries)
claim_due_deletions_lem_example = claim_due_deletions_lem 60 shop (pos 10) shop-IsConsistent

delete_one-IsConsistent_example : IsConsistent (delete_one 61 task (api_error "timeout") shop).1
delete_one-IsConsistent_example =
    delete_one-IsConsistent shop shop-IsConsistent 61 task (api_error "timeout")

recover_stale_sends-IsConsistent_example : IsConsistent (recover_stale_sends 400000000 300 shop).1
recover_stale_sends-IsConsistent_example =
    recover_stale_sends-IsConsistent 400000000 300 shop shop-IsConsistent
