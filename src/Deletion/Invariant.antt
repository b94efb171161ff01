-- ===== src/Deletion/Invariant.antt =====
-- The recovery and the deletion keep the tables of rewards and deliveries consistent.
use cine_gate.Base.{
  ℕ, ◌≡◌, refl, inl, inr, ◌==◌, Bool, true, false, arith, Bool-cases, String, update_where,
  All-update_where, update_where-IsUnique,
}
use cine_gate.Models.{Delivery, Database}
use cine_gate.Delivery.Rows.{delivery_key, session_key}
use cine_gate.Delivery.Invariant.{DeliveryOk, IsConsistent}
use cine_gate.Deletion.{
  DueDeletion, is_deleting, is_stale_deletion, recovered_deletion, recover_stale_deletions,
  deleted_row, failed_row, rescheduled_row, mark_deleted, mark_delete_failed, reschedule_delete,
  DeleteAnswer, done, bad_request, forbidden, api_error, delete_one,
}

-- An `UPDATE` of deliveries that leaves their keys.
update-IsConsistent :
    (p : Delivery → Bool) (f : Delivery → Delivery)
    → ((d : Delivery) → (f d).id ≡ d.id)
    → ((d : Delivery) → (f d).reward_session_id ≡ d.reward_session_id)
    → ((d : Delivery) → p d ≡ true → DeliveryOk d → DeliveryOk (f d))
    → (s : Database) → IsConsistent s
    → IsConsistent (record s { deliveries = update_where p f s.deliveries })
update-IsConsistent p f same session keep s c = record {
  rewards = record {
    unique = c.rewards.unique;
    rows = c.rewards.rows;
    one_active = c.rewards.one_active;
  };
  unique = update_where-IsUnique delivery_key p f same s.deliveries c.unique;
  one_each = update_where-IsUnique session_key p f session s.deliveries c.one_each;
  rows = All-update_where DeliveryOk p f keep s.deliveries c.rows;
}

module _ (now : ℕ) (d : Delivery) (o : DeliveryOk d) where
  recovered-DeliveryOk : is_deleting d.status ≡ true → DeliveryOk (recovered_deletion now d)
  unfolding is_deleting
  recovered-DeliveryOk h = ground arith

  rescheduled-DeliveryOk :
      (error : String) → is_deleting d.status ≡ true → DeliveryOk (rescheduled_row now error d)
  unfolding is_deleting rescheduled_row
  rescheduled-DeliveryOk error h = ground arith

deleted-DeliveryOk : (now : ℕ) (d : Delivery) → DeliveryOk (deleted_row now d)
deleted-DeliveryOk now d = ground arith

failed-DeliveryOk : (error : String) (d : Delivery) → DeliveryOk (failed_row error d)
failed-DeliveryOk error d = ground arith

module _ (s : Database) (c : IsConsistent s) where
  -- In consistent tables, whatever the Bot API answers to a deletion, its record keeps them
  -- consistent.
  pub delete_one-IsConsistent :
      (now : ℕ) (item : DueDeletion) (answer : DeleteAnswer)
      → IsConsistent (delete_one now item answer s).1
  unfolding delete_one mark_deleted mark_delete_failed reschedule_delete rescheduled_row
  delete_one-IsConsistent now item done =
      update-IsConsistent _ (deleted_row now) (λ d. refl) (λ d. refl)
        (λ d _ _. deleted-DeliveryOk now d) s c
  delete_one-IsConsistent now item (bad_request true error) =
      update-IsConsistent _ (deleted_row now) (λ d. refl) (λ d. refl)
        (λ d _ _. deleted-DeliveryOk now d) s c
  delete_one-IsConsistent now item (bad_request false error) =
      update-IsConsistent _ (failed_row error) (λ d. refl) (λ d. refl)
        (λ d _ _. failed-DeliveryOk error d) s c
  delete_one-IsConsistent now item (forbidden error) =
      update-IsConsistent _ (failed_row error) (λ d. refl) (λ d. refl)
        (λ d _ _. failed-DeliveryOk error d) s c
  delete_one-IsConsistent now item (api_error error) =
      update-IsConsistent _ (rescheduled_row now error) (λ d. refl) (λ d. refl)
        (λ d h o. rescheduled-DeliveryOk now d o error (ground (arith, h))) s c

  -- The recovery of stale deletions, with any limit of age, keeps the tables consistent.
  pub recover_stale_deletions-IsConsistent :
      (now stale : ℕ) → IsConsistent (recover_stale_deletions now stale s).1
  unfolding recover_stale_deletions
  recover_stale_deletions-IsConsistent now stale = elim (Bool-cases (stale == 0)) [
    | inl e ↦ rw e c
    | inr e ↦ rw e (
        update-IsConsistent (is_stale_deletion now stale) (recovered_deletion now) (λ d. refl)
          (λ d. refl) (λ d h o. recovered-DeliveryOk now d o (ground (arith, h))) s c)
  ]
