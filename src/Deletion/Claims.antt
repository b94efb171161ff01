-- ===== src/Deletion/Claims.antt =====
-- The deletions that the worker is given.
use cine_gate.Base.{
  ℕ, ◌≤◌, ◌≡◌, refl, inl, inr, true, false, Option, none, some, ok, arith, Option-cases, Bool-cases,
  or_raise, pure, ◌>>=◌, List, [], ◌∷◌, All, length, IsUnique, select_where, order_by,
  All-select_where, All-order_by, All-take, length-take-le, put-IsFrom, IsFrom, IsUnique-IsFrom,
  select_where-IsUnique, length-take, count-take-le, length-order_by, count-order_by,
  length-select_where, count-select_where, count, min, is_some, Bool, ◌&&◌, ◌+◌, lookup, lookup-put,
  ◌∙◌, order_by-IsUnique, take-IsUnique,
}
use cine_gate.Models.{Delivery, DeliveryStatus, Database, ℤ, clamp}
use cine_gate.Delivery.Rows.{delivery_key, put_delivery, Tx, is_sent, value_error}
use cine_gate.Delivery.{select_delivery}
use cine_gate.Delivery.Invariant.{DeliveryOk, IsConsistent, put_delivery-IsConsistent}
use cine_gate.Deletion.{
  DueDeletion, is_before, is_due, due_first, delete_max_age, given_up, start_deleting, task_of,
  claim_rows, due_rows, claim_due_deletions,
}

given_up-DeliveryOk : (d : Delivery) → DeliveryOk d → DeliveryOk (given_up d)
given_up-DeliveryOk d o = ground arith

start_deleting-DeliveryOk :
    (now : ℕ) (d : Delivery)
    → is_due now d ≡ true
    → DeliveryOk d
    → DeliveryOk (start_deleting now d)
unfolding is_sent
start_deleting-DeliveryOk now d h o = ground arith

-- In the tables before the claim the row was sent, with the message, is due for deletion, and is not
-- older than 48 hours; in the tables after it the row is being deleted.
pub record IsTask (now : ℕ) (s u : Database) (task : DueDeletion) : Type 0 where
  pub row : Delivery
  pub found : select_delivery task.delivery_id s ≡ some row
  pub was_sent : row.status ≡ DeliveryStatus.sent
  pub was_due : is_before now 0 row.next_attempt_at ≡ true
  pub young : is_before now delete_max_age row.sent_at ≡ false
  pub same_user : task.telegram_user_id ≡ row.telegram_user_id
  pub same_message : row.telegram_message_id ≡ some task.telegram_message_id
  pub left :
      select_delivery task.delivery_id u
      ≡ some (record row { status = DeliveryStatus.deleting; delete_started_at = some now })

-- A row of the query, which the loop has not yet reached.
abbrev IsPending : ℕ → Database → Delivery → Type 0
IsPending now s d = ((select_delivery d.id s ≡ some d) × DeliveryOk d) × (is_due now d ≡ true)

-- The copy was sent, and its time of deletion has come.
abbrev pub is_waiting : ℕ → Delivery → Bool
is_waiting now d =
    is_sent d.status && is_some d.telegram_message_id && is_before now 0 d.next_attempt_at

-- The copy is older than 48 hours.
abbrev pub is_older : ℕ → Delivery → Bool
is_older now d = is_before now delete_max_age d.sent_at

-- The claim of the rows `ds` leaves every other row as it is.
abbrev Keeps : List Delivery → Database → Database → Type 0
Keeps ds t u = (k : ℕ) → lookup delivery_key k ds ≡ none → select_delivery k u ≡ select_delivery k t

abbrev Claims : ℕ → Database → List Delivery → Database → Type 0
Claims now s ds t =
    (tasks : List DueDeletion) × (u : Database) × (claim_rows now ds t ≡ (ok tasks, u))
    × IsConsistent u
    × All (IsTask now s u) tasks
    × (length ds ≡ length tasks + count (is_older now) ds)
    × Keeps ds t u

due-IsTask :
    (now message : ℕ) (s u : Database) (d : Delivery)
    → IsPending now s d
    → is_before now delete_max_age d.sent_at ≡ false
    → d.telegram_message_id ≡ some message
    → select_delivery d.id u ≡ some (start_deleting now d)
    → IsTask now s u (task_of d message)
unfolding is_sent
due-IsTask now message s u d h young e left = record {
  row = d;
  found = h.0.0;
  was_sent = ground (arith, h.1);
  was_due = ground (arith, h.1);
  young = young;
  same_user = refl;
  same_message = e;
  left = left;
}

-- A turn of the loop writes to the row `d` alone.
Keeps-put :
    (d e old : Delivery) (ds : List Delivery) (t u : Database)
    → e.id ≡ d.id
    → select_delivery d.id t ≡ some old
    → Keeps ds (put_delivery e t) u
    → Keeps (d ∷ ds) t u
unfolding lookup
Keeps-put d e old ds t u same found keeps k absent =
    ground (arith, keeps k, lookup-put delivery_key k e old t.deliveries)

due_message :
    (now : ℕ) (d : Delivery) → is_due now d ≡ true → (m : ℕ) × (d.telegram_message_id ≡ some m)
due_message now d h = elim (Option-cases d.telegram_message_id) [
  | inl e ↦ absurd (ground (arith, h, e))
  | inr (m, e) ↦ (m, e)
]

-- The end of a turn of the loop, on a row with its message.
give_task :
    (d : Delivery) (o : Option ℕ) (m : ℕ) (rest : Tx (List DueDeletion)) (t v : Database)
    (tasks : List DueDeletion)
    → o ≡ some m
    → rest t ≡ (ok tasks, v)
    → (do message ← or_raise o value_error; others ← rest; pure (task_of d message ∷ others)) t
      ≡ (ok (task_of d m ∷ tasks), v)
give_task d o m rest t v tasks h e = rw (h, e) refl

module _ (now : ℕ) (s : Database) where
  claim_rows-Claims :
      (ds : List Delivery) (t : Database)
      → IsConsistent t
      → IsUnique delivery_key ds
      → IsFrom delivery_key t.deliveries ds
      → All (IsPending now s) ds
      → Claims now s ds t
  unfolding claim_rows count
  claim_rows-Claims [] t c u from h = ([], t, refl, c, tt, refl, λ k h. refl)
  claim_rows-Claims (d ∷ ds) t c u from h =
      elim (Bool-cases (is_before now delete_max_age d.sent_at)) [
        | inl old ↦
            let (tasks, v, e, w, good, short, keeps) =
              claim_rows-Claims ds (put_delivery (given_up d) t)
                (put_delivery-IsConsistent t (given_up d) d c from.0 refl refl
                  (given_up-DeliveryOk d h.0.0.1))
                u.1 (put-IsFrom delivery_key (given_up d) d t.deliveries ds from.0 u.0 from.1)
                h.1 in
            (
              tasks,
              v,
              rw old e,
              w,
              good,
              ground (arith, short),
              Keeps-put d (given_up d) d ds t v refl from.0 keeps,
            )
        | inr young ↦
            let (m, sent) = due_message now d h.0.1 in
            let (tasks, v, e, w, good, short, keeps) =
              claim_rows-Claims ds (put_delivery (start_deleting now d) t)
                (put_delivery-IsConsistent t (start_deleting now d) d c from.0 refl refl
                  (start_deleting-DeliveryOk now d h.0.1 h.0.0.1))
                u.1
                (put-IsFrom delivery_key (start_deleting now d) d t.deliveries ds from.0 u.0 from.1)
                h.1 in
            (
              task_of d m ∷ tasks,
              v,
              rw young (
                  give_task d d.telegram_message_id m (claim_rows now ds)
                    (put_delivery (start_deleting now d) t) v tasks sent e),
              w,
              (
                due-IsTask now m s v d h.0 young sent (
                    keeps d.id u.0
                    ∙ ground (
                      arith,
                      lookup-put delivery_key d.id (start_deleting now d) d t.deliveries,
                      from.0,
                    )),
                good,
              ),
              ground (arith, short),
              Keeps-put d (start_deleting now d) d ds t v refl from.0 keeps,
            )
      ]

  All-both :
      (ds : List Delivery)
      → IsFrom delivery_key s.deliveries ds
      → All DeliveryOk ds
      → All (λ d. (select_delivery d.id s ≡ some d) × DeliveryOk d) ds
  All-both [] h o = tt
  All-both (d ∷ ds) h o = ((h.0, o.0), All-both ds h.1 o.1)

  All-found : (ds : List Delivery) → All (IsPending now s) ds → IsFrom delivery_key s.deliveries ds
  All-found [] h = tt
  All-found (d ∷ ds) h = (h.0.0.0, All-found ds h.1)

  -- In consistent tables the claim of due deletions raises nothing and keeps the tables consistent.
  -- It claims no more rows than the limit, which is taken between 1 and 100; the tasks and the due
  -- rows older than 48 hours are together no fewer than the limit, or than all due rows where these
  -- are fewer. Each task is a delivery that was sent, is due and is not older than 48 hours, with
  -- its user and message, and its row is left `deleting` from now, with nothing else changed.
  pub claim_due_deletions_lem :
      (limit : ℤ)
      → IsConsistent s
      → (tasks : List DueDeletion) × (u : Database) × (claim_due_deletions now limit s
          ≡ (ok tasks, u))
        × IsConsistent u
        × All (IsTask now s u) tasks
        × (length tasks ≤ clamp 1 100 limit)
        × (min (clamp 1 100 limit) (count (is_waiting now) s.deliveries)
            ≤ length tasks + count (λ d. is_waiting now d && is_older now d) s.deliveries)
  unfolding claim_due_deletions due_rows
  claim_due_deletions_lem limit c =
      let due = select_where (is_due now) s.deliveries in
      let rows = due_rows now limit s in
      let unique : IsUnique delivery_key rows =
        take-IsUnique delivery_key (clamp 1 100 limit) (order_by due_first due) (
          order_by-IsUnique delivery_key due_first due
            (select_where-IsUnique delivery_key (is_due now) s.deliveries c.unique)) in
      let pending : All (IsPending now s) rows =
        All-take (IsPending now s) (clamp 1 100 limit) (order_by due_first due) (
          All-order_by (IsPending now s) due_first due (
            All-select_where (λ d. (select_delivery d.id s ≡ some d) × DeliveryOk d) (is_due now)
              s.deliveries
              (All-both s.deliveries (IsUnique-IsFrom delivery_key s.deliveries c.unique)
                c.rows))) in
      let (tasks, u, e, w, good, short, keeps) =
        claim_rows-Claims rows s c unique (All-found rows pending) pending in
      (
        tasks,
        u,
        rw e refl,
        w,
        good,
        omega (arith, short, length-take-le (clamp 1 100 limit) (order_by due_first due)),
        omega (
          arith,
          short,
          length-take (clamp 1 100 limit) (order_by due_first due),
          length-order_by due_first due,
          length-select_where (is_due now) s.deliveries,
          count-take-le (is_older now) (clamp 1 100 limit) (order_by due_first due),
          count-order_by (is_older now) due_first due,
          count-select_where (is_due now) (is_older now) s.deliveries,
        ),
      )
