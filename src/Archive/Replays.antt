-- ===== src/Archive/Replays.antt =====
-- services/archive_indexer.py: messages that come again, and edits that come late.
use cine_gate.Base.{
  ap, ℕ, ◌≡◌, ◌==◌, ◌<◌, ◌≢◌, inl, inr, refl, arith, ltb, Bool, true, false, Option, none, some,
  List, is_some, Bool-cases, Option-cases, Exec, Result, ok, err, Ensures, bind-Ensures, if-Ensures,
  transaction, roll_back_keeps, map-Ensures, Ensures-roll_back, Ensures-ok, ◌>>=◌,
}
use cine_gate.Models.{ℤ, setting, get_int, get_int_cases}
use cine_gate.Archive.Text.{TextLibrary}
use cine_gate.Archive.Messages.{ArchiveMessage}
use cine_gate.Archive.Store.{
  ArchiveMessageSnapshot, ArchiveIndexResult, ArchiveStore, Catalog, IndexError, Indexing,
  on_catalog, catalog_of, with_catalog,
}
use cine_gate.Archive.Indexer.{duplicate_result}
use cine_gate.Archive.Edits.{index_message, index_edit}
use cine_gate.Archive.Safety.{duplicate_result-state}
use cine_gate.Archive.Ingest.{
  edit_step, snapshot_at, version_of, record_snapshot, is_configured, when_recorded, with_channel,
  archive_channel, ingest, reconcile_edit,
}

module _ (L : TextLibrary) where
  duplicate-stays :
      (channel k : ℕ) (s : ArchiveStore) → (on_catalog (duplicate_result channel k) s).1 ≡ s
  duplicate-stays channel k s =
      ap (λ c. with_catalog c s) (duplicate_result-state channel k (catalog_of s))

  -- Where the snapshot is not written, both entry points leave the store.
  unwritten-stays :
      (channel : ℕ) (m : ArchiveMessage) (write : Exec ArchiveStore IndexError Bool)
      (index : List ArchiveMessageSnapshot → Indexing ArchiveIndexResult) (s : ArchiveStore)
      → write s ≡ (ok false, s)
      → (transaction (archive_channel L s >>= with_channel L channel m write index) s).1 ≡ s
  unwritten-stays channel m write index s e =
      elim (get_int_cases IndexError.setting_type_error
        (setting "archive_channel_id" s.database.settings) s) [
          | inl (n, f) ↦ elim (Bool-cases (is_configured L channel n)) [
            | inl g ↦
                rw (f, g, e)
                  (roll_back_keeps (λ t. t ≡ s) s
                    (on_catalog (duplicate_result channel m.message_id) s) refl
                    (duplicate-stays channel m.message_id s))
            | inr g ↦ rw (f, g) refl
          ]
          | inr f ↦ rw f refl
        ]

  record_snapshot-seen :
      (channel : ℕ) (m : ArchiveMessage) (n : ArchiveMessageSnapshot) (s : ArchiveStore)
      → snapshot_at channel m.message_id s.snapshots ≡ some n
      → record_snapshot L channel m false none s ≡ (ok false, s)
  unfolding record_snapshot
  record_snapshot-seen channel m n s e = rw e refl

  record_snapshot-outdated :
      (channel v : ℕ) (m : ArchiveMessage) (s : ArchiveStore)
      → (v == version_of (snapshot_at channel m.message_id s.snapshots)) ≡ false
      → record_snapshot L channel m true (some v) s ≡ (ok false, s)
  unfolding record_snapshot
  record_snapshot-outdated channel v m s e = rw e refl

  record_snapshot-older :
      (channel old new : ℕ) (m : ArchiveMessage) (n : ArchiveMessageSnapshot) (s : ArchiveStore)
      → snapshot_at channel m.message_id s.snapshots ≡ some n
      → n.edited_at ≡ some old
      → m.edited_at ≡ some new
      → new < old
      → record_snapshot L channel m true none s ≡ (ok false, s)
  unfolding record_snapshot edit_step
  record_snapshot-older channel old new m n s e of_n of_m less =
      let late : ltb new old ≡ true = ground arith in rw (e, of_n, of_m, late) refl

  -- A message that has a snapshot is not indexed again by `ingest`.
  pub ingest-seen :
      (id channel : ℕ) (m : ArchiveMessage) (n : ArchiveMessageSnapshot) (s : ArchiveStore)
      → snapshot_at channel m.message_id s.snapshots ≡ some n
      → (ingest L id channel m s).1 ≡ s
  unfolding ingest
  ingest-seen id channel m n s e =
      unwritten-stays channel m (record_snapshot L channel m false none)
        (λ ns. index_message L ns id channel m) s (record_snapshot-seen channel m n s e)

  -- An edit that expects another version of the snapshot than there is changes nothing of the
  -- store.
  pub reconcile_edit-outdated :
      (id channel v : ℕ) (m : ArchiveMessage) (s : ArchiveStore)
      → v ≢ version_of (snapshot_at channel m.message_id s.snapshots)
      → (reconcile_edit L id channel m (some v) s).1 ≡ s
  unfolding reconcile_edit
  reconcile_edit-outdated id channel v m s apart =
      unwritten-stays channel m (record_snapshot L channel m true (some v))
        (λ ns. index_edit L ns id channel m) s
        (record_snapshot-outdated channel v m s (ground arith))

  -- A live edit changes nothing of the store where the snapshot is of a later edit.
  pub reconcile_edit-older :
      (id channel old new : ℕ) (m : ArchiveMessage) (n : ArchiveMessageSnapshot) (s : ArchiveStore)
      → snapshot_at channel m.message_id s.snapshots ≡ some n
      → n.edited_at ≡ some old
      → m.edited_at ≡ some new
      → new < old
      → (reconcile_edit L id channel m none s).1 ≡ s
  unfolding reconcile_edit
  reconcile_edit-older id channel old new m n s e of_n of_m less =
      unwritten-stays channel m (record_snapshot L channel m true none)
        (λ ns. index_edit L ns id channel m) s
        (record_snapshot-older channel old new m n s e of_n of_m less)

  abbrev IsSeen : ℕ → ArchiveMessage → ArchiveStore → Type 0
  IsSeen channel m t = is_some (snapshot_at channel m.message_id t.snapshots) ≡ true

  record_snapshot-IsSeen :
      (channel : ℕ) (m : ArchiveMessage) (s : ArchiveStore)
      → Ensures (λ b t. IsSeen channel m t) (record_snapshot L channel m false none s)
  unfolding record_snapshot snapshot_at
  record_snapshot-IsSeen channel m s =
      elim (Option-cases (snapshot_at channel m.message_id s.snapshots)) [
        | inl e ↦ rw (e, Ensures) (ground arith)
        | inr (n, e) ↦ rw (e, Ensures) (ap is_some e)
      ]

  on_catalog-IsSeen :
      {A : Type 0} (channel : ℕ) (m : ArchiveMessage) (f : Indexing A) (t : ArchiveStore)
      → IsSeen channel m t
      → Ensures (λ a u. IsSeen channel m u) (on_catalog f t)
  on_catalog-IsSeen channel m f t h = lifted (f (catalog_of t)) h
    where
      lifted :
          {A : Type 0} (r : Result IndexError A × Catalog)
          → IsSeen channel m t
          → Ensures (λ a u. IsSeen channel m u) (r.0, with_catalog r.1 t)
      lifted (ok a, c) k = k
      lifted (err e, c) k = tt

  -- The message is not indexed again.
  abbrev IsSettled : ℕ → ℕ → ArchiveMessage → ArchiveStore → Type 0
  IsSettled id channel m t = (ingest L id channel m t).1 ≡ t

  IsSeen-IsSettled :
      (id channel : ℕ) (m : ArchiveMessage) (t : ArchiveStore)
      → IsSeen channel m t
      → IsSettled id channel m t
  IsSeen-IsSettled id channel m t h =
      elim (Option-cases (snapshot_at channel m.message_id t.snapshots)) [
        | inl e ↦ ground (arith, h, e)
        | inr (n, e) ↦ ingest-seen id channel m n t e
      ]

  configured-IsSettled :
      (id channel : ℕ) (m : ArchiveMessage)
      (index : List ArchiveMessageSnapshot → Indexing ArchiveIndexResult) (s : ArchiveStore)
      → Ensures
          (λ r t. IsSettled id channel m t)
          ((record_snapshot L channel m false none >>= when_recorded L channel m index) s)
  configured-IsSettled id channel m index s =
      bind-Ensures (λ b t. IsSeen channel m t) (λ r t. IsSettled id channel m t)
        (record_snapshot L channel m false none) (when_recorded L channel m index) s
        (record_snapshot-IsSeen channel m s)
        (λ b t h.
          map-Ensures (λ r u. IsSeen channel m u) (λ r u. IsSettled id channel m u)
            (when_recorded L channel m index b t) (λ r u. IsSeen-IsSettled id channel m u)
            (if-Ensures (λ r u. IsSeen channel m u) b (on_catalog (index t.snapshots) t)
              (on_catalog (duplicate_result channel m.message_id) t)
              (on_catalog-IsSeen channel m (index t.snapshots) t h)
              (on_catalog-IsSeen channel m (duplicate_result channel m.message_id) t h)))

  unconfigured-IsSettled :
      (id channel : ℕ) (m : ArchiveMessage) (n : Option ℤ) (s : ArchiveStore)
      → get_int IndexError.setting_type_error (setting "archive_channel_id" s.database.settings) s
        ≡ (ok n, s)
      → is_configured L channel n ≡ false
      → IsSettled id channel m s
  unfolding ingest
  unconfigured-IsSettled id channel m n s f g = rw (f, g) refl

  ingest-IsSettled :
      (id again channel : ℕ) (m : ArchiveMessage) (s : ArchiveStore)
      → Ensures (λ r t. IsSettled again channel m t) (ingest L id channel m s)
  unfolding ingest
  ingest-IsSettled id again channel m s =
      elim (get_int_cases IndexError.setting_type_error
        (setting "archive_channel_id" s.database.settings) s) [
          | inl (n, f) ↦ elim (Bool-cases (is_configured L channel n)) [
            | inl g ↦
                rw (f, g)
                  (Ensures-roll_back (λ r t. IsSettled again channel m t) s
                    ((record_snapshot L channel m false none
                        >>= when_recorded L channel m (λ ns. index_message L ns id channel m))
                      s)
                    (configured-IsSettled again channel m (λ ns. index_message L ns id channel m)
                      s))
            | inr g ↦ rw (f, g, Ensures) (unconfigured-IsSettled again channel m n s f g)
          ]
          | inr f ↦ rw (f, Ensures) tt
        ]

  -- After a post that does not raise, the same post changes nothing of the store.
  pub ingest-ingest :
      (id again channel : ℕ) (m : ArchiveMessage) (s t : ArchiveStore) (r : ArchiveIndexResult)
      → ingest L id channel m s ≡ (ok r, t)
      → (ingest L again channel m t).1 ≡ t
  ingest-ingest id again channel m s t r e =
      Ensures-ok (λ r u. IsSettled again channel m u) (ingest L id channel m s) r t
        (ingest-IsSettled id again channel m s) e
