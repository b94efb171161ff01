-- ===== src/Archive/Runs.antt =====
-- services/archive_indexer.py: any sequence of posts and edits of the archive channel.
use cine_gate.Base.{
  ℕ, inl, inr, Bool, true, false, Option, none, some, List, is_none, Result, ok, err, Ensures,
  bind-Ensures, if-Ensures, roll_back-Ensures, ◌>>=◌, pure,
}
use cine_gate.Models.{setting, get_int_cases}
use cine_gate.Archive.Text.{TextLibrary}
use cine_gate.Archive.Messages.{ArchiveMessage}
use cine_gate.Archive.Store.{
  ArchiveMessageSnapshot, ArchiveIndexResult, ignored_result, ArchiveStore, Catalog, IndexError,
  Indexing, on_catalog, catalog_of, with_catalog,
}
use cine_gate.Archive.Indexer.{duplicate_result}
use cine_gate.Archive.Edits.{index_message, index_edit, invalidate_snapshot_conflict}
use cine_gate.Archive.Catalogs.{Inv}
use cine_gate.Archive.Safety.{KeepsInv, duplicate_result-Inv}
use cine_gate.Archive.EditSafety.{index_message-Inv}
use cine_gate.Archive.Revisions.{index_edit-Inv, invalidate_snapshot_conflict-Inv}
use cine_gate.Archive.Ingest.{
  conflicted_snapshot, put_snapshot, SnapshotStep, refuse, conflict, rewrite, edit_step,
  snapshot_at, is_outdated, apply_step, record_at, record_snapshot, is_configured, when_recorded,
  with_channel, archive_channel, ingest, reconcile_edit,
}

-- What the rows of the store satisfy.
abbrev pub IsSafeStore : ArchiveStore → Type 0
IsSafeStore s = Inv (catalog_of s)

abbrev Keeps : {A : Type 0} → Result IndexError A × ArchiveStore → Type 0
Keeps r = Ensures (λ a t. IsSafeStore t) r

on_catalog-Keeps :
    {A : Type 0} (m : Indexing A) (s : ArchiveStore)
    → KeepsInv (m (catalog_of s))
    → Keeps (on_catalog m s)
on_catalog-Keeps m s h = lifted (m (catalog_of s)) s h
  where
    lifted :
        {A : Type 0} (r : Result IndexError A × Catalog) (s : ArchiveStore)
        → KeepsInv r
        → Keeps (r.0, with_catalog r.1 s)
    lifted (ok a, c) s h = h
    lifted (err e, c) s h = tt

module _ (L : TextLibrary) where
  apply_step-Keeps :
      (channel : ℕ) (m : ArchiveMessage) (n : ArchiveMessageSnapshot) (step : SnapshotStep)
      (s : ArchiveStore)
      → IsSafeStore s
      → Keeps (apply_step L channel m n step s)
  apply_step-Keeps channel m n refuse s h = h
  apply_step-Keeps channel m n rewrite s h = h
  apply_step-Keeps channel m n conflict s h =
      let ns = put_snapshot (conflicted_snapshot n) s.snapshots in
      let t : ArchiveStore = record s { snapshots = ns } in
      bind-Ensures (λ u v. IsSafeStore v) (λ b v. IsSafeStore v)
        (on_catalog (invalidate_snapshot_conflict L ns channel m.message_id)) (λ u. pure false) t
        (on_catalog-Keeps (invalidate_snapshot_conflict L ns channel m.message_id) t
          (invalidate_snapshot_conflict-Inv L ns channel m.message_id (catalog_of s) h))
        (λ u v k. k)

  record_at-Keeps :
      (channel : ℕ) (m : ArchiveMessage) (reconcile : Bool) (expected : Option ℕ)
      (o : Option ArchiveMessageSnapshot) (s : ArchiveStore)
      → IsSafeStore s
      → Keeps (record_at L channel m reconcile expected o s)
  record_at-Keeps channel m reconcile expected none s h = h
  record_at-Keeps channel m reconcile expected (some n) s h =
      let step = edit_step (is_none expected) m n in
      if-Ensures (λ b t. IsSafeStore t) reconcile (apply_step L channel m n step s) (ok false, s)
        (apply_step-Keeps channel m n step s h) h

  record_snapshot-Keeps :
      (channel : ℕ) (m : ArchiveMessage) (reconcile : Bool) (expected : Option ℕ) (s : ArchiveStore)
      → IsSafeStore s
      → Keeps (record_snapshot L channel m reconcile expected s)
  unfolding record_snapshot
  record_snapshot-Keeps channel m reconcile expected s h =
      let n = snapshot_at channel m.message_id s.snapshots in
      if-Ensures (λ b t. IsSafeStore t) (is_outdated expected n) (ok false, s)
        (record_at L channel m reconcile expected n s) h
        (record_at-Keeps channel m reconcile expected n s h)

  when_recorded-Keeps :
      (channel : ℕ) (m : ArchiveMessage)
      (index : List ArchiveMessageSnapshot → Indexing ArchiveIndexResult) (written : Bool)
      (s : ArchiveStore)
      → ((c : Catalog) → Inv c → KeepsInv (index s.snapshots c))
      → IsSafeStore s
      → Keeps (when_recorded L channel m index written s)
  when_recorded-Keeps channel m index written s keeps h =
      if-Ensures (λ b t. IsSafeStore t) written (on_catalog (index s.snapshots) s)
        (on_catalog (duplicate_result channel m.message_id) s)
        (on_catalog-Keeps (index s.snapshots) s (keeps (catalog_of s) h))
        (on_catalog-Keeps (duplicate_result channel m.message_id) s
          (duplicate_result-Inv channel m.message_id (catalog_of s) h))

  -- Both entry points.
  indexed-Keeps :
      (channel : ℕ) (m : ArchiveMessage) (reconcile : Bool) (expected : Option ℕ)
      (index : List ArchiveMessageSnapshot → Indexing ArchiveIndexResult) (s : ArchiveStore)
      → ((ns : List ArchiveMessageSnapshot) (c : Catalog) → Inv c → KeepsInv (index ns c))
      → IsSafeStore s
      → Keeps (
          (archive_channel L s
              >>= with_channel L channel m (record_snapshot L channel m reconcile expected) index)
            s)
  indexed-Keeps channel m reconcile expected index s keeps h =
      elim (get_int_cases IndexError.setting_type_error
        (setting "archive_channel_id" s.database.settings) s) [
          | inl (n, e) ↦ rw e (
              if-Ensures (λ b t. IsSafeStore t) (is_configured L channel n)
                ((record_snapshot L channel m reconcile expected
                    >>= when_recorded L channel m index)
                  s)
                (ok ignored_result, s)
                (bind-Ensures (λ b t. IsSafeStore t) (λ r t. IsSafeStore t)
                  (record_snapshot L channel m reconcile expected) (when_recorded L channel m index)
                  s (record_snapshot-Keeps channel m reconcile expected s h)
                  (λ b t k. when_recorded-Keeps channel m index b t (keeps t.snapshots) k))
                h)
          | inr e ↦ rw (e, Ensures) tt
        ]

  ingest-IsSafeStore :
      (id channel : ℕ) (m : ArchiveMessage) (s : ArchiveStore)
      → IsSafeStore s
      → IsSafeStore (ingest L id channel m s).1
  unfolding ingest
  ingest-IsSafeStore id channel m s h =
      roll_back-Ensures IsSafeStore s
        ((archive_channel L s
            >>= with_channel L channel m (record_snapshot L channel m false none)
                (λ ns. index_message L ns id channel m))
          s)
        h
        (indexed-Keeps channel m false none (λ ns. index_message L ns id channel m) s
          (λ ns. index_message-Inv L ns id channel m) h)

  reconcile_edit-IsSafeStore :
      (id channel : ℕ) (m : ArchiveMessage) (expected : Option ℕ) (s : ArchiveStore)
      → IsSafeStore s
      → IsSafeStore (reconcile_edit L id channel m expected s).1
  unfolding reconcile_edit
  reconcile_edit-IsSafeStore id channel m expected s h =
      roll_back-Ensures IsSafeStore s
        ((archive_channel L s
            >>= with_channel L channel m (record_snapshot L channel m true expected)
                (λ ns. index_edit L ns id channel m))
          s)
        h
        (indexed-Keeps channel m true expected (λ ns. index_edit L ns id channel m) s
          (λ ns. index_edit-Inv L ns id channel m) h)

-- The stores that posts and edits reach from `s`; an operation that raises is undone.
pub data ArchiveRuns (L : TextLibrary) (s : ArchiveStore) : ArchiveStore → Type 0 where
  start : ArchiveRuns L s s
  posted :
      (id channel : ℕ) (m : ArchiveMessage) {t : ArchiveStore}
      → ArchiveRuns L s t
      → ArchiveRuns L s (ingest L id channel m t).1
  edited :
      (id channel : ℕ) (m : ArchiveMessage) (expected : Option ℕ) {t : ArchiveStore}
      → ArchiveRuns L s t
      → ArchiveRuns L s (reconcile_edit L id channel m expected t).1

-- From a safe store, posts and edits in any order lead to a safe one: keys are unique, every
-- quality has its movie, a movie that is `indexed` has a positive confidence and at least one
-- quality and no quality without confidence, and a movie that is `pending` has no quality.
pub ArchiveRuns-IsSafeStore :
    (L : TextLibrary) {s t : ArchiveStore} → IsSafeStore s → ArchiveRuns L s t → IsSafeStore t
ArchiveRuns-IsSafeStore L h start = h
ArchiveRuns-IsSafeStore L h (posted id channel m {t} r) =
    ingest-IsSafeStore L id channel m t (ArchiveRuns-IsSafeStore L h r)
ArchiveRuns-IsSafeStore L h (edited id channel m expected {t} r) =
    reconcile_edit-IsSafeStore L id channel m expected t (ArchiveRuns-IsSafeStore L h r)
