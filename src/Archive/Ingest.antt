-- ===== src/Archive/Ingest.antt =====
-- services/archive_indexer.py: the snapshots, and the entry points `ingest` and `reconcile_edit`.
use cine_gate.Base.{
  ℕ, ◌+◌, ◌==◌, ltb, Bool, true, false, ◌&&◌, not, String, Option, none, some, List, [], ◌∷◌,
  str_eq, if◌then◌else◌, is_none, Exec, ok, pure, transaction, ◌>>=◌, ◌>>◌,
}
use cine_gate.Models.{ℤ, setting, get_int}
use cine_gate.Archive.Text.{TextLibrary}
use cine_gate.Archive.Messages.{MediaKind, photo, video, document, other, ArchiveMessage}
use cine_gate.Archive.Store.{
  ArchiveMessageSnapshot, ArchiveIndexResult, ignored_result, ArchiveStore, IndexError, Indexing,
  on_catalog, identifier,
}
use cine_gate.Archive.Indexer.{duplicate_result}
use cine_gate.Archive.Edits.{index_message, index_edit, invalidate_snapshot_conflict}

abbrev pub is_at : ℕ → ℕ → ArchiveMessageSnapshot → Bool
is_at channel k n = n.archive_channel_id == channel && n.message_id == k

-- The row with the primary key.
unfoldable pub snapshot_at : ℕ → ℕ → List ArchiveMessageSnapshot → Option ArchiveMessageSnapshot
snapshot_at channel k [] = none
snapshot_at channel k (n ∷ ns) = if is_at channel k n then some n else snapshot_at channel k ns

-- The row is written back under its primary key.
pub put_snapshot :
    ArchiveMessageSnapshot → List ArchiveMessageSnapshot → List ArchiveMessageSnapshot
put_snapshot r [] = []
put_snapshot r (n ∷ ns) =
    if is_at r.archive_channel_id r.message_id n then r ∷ ns else n ∷ put_snapshot r ns

unfoldable pub version_of : Option ArchiveMessageSnapshot → ℕ
version_of none = 0
version_of (some n) = n.version

-- `snapshot_versions`: the token of each message.
pub snapshot_versions : ℕ → List ℕ → List ArchiveMessageSnapshot → List (ℕ × ℕ)
snapshot_versions channel [] ns = []
snapshot_versions channel (k ∷ ks) ns =
    (k, version_of (snapshot_at channel k ns)) ∷ snapshot_versions channel ks ns

abbrev pub new_snapshot : ℕ → ArchiveMessage → ArchiveMessageSnapshot
new_snapshot channel m = record {
  archive_channel_id = channel;
  message_id = m.message_id;
  media_kind = m.media_kind;
  caption = m.caption;
  edited_at = m.edited_at;
  conflicted = false;
  version = 1;
}

abbrev pub rewritten_snapshot : ArchiveMessage → ArchiveMessageSnapshot → ArchiveMessageSnapshot
rewritten_snapshot m n = record n {
  media_kind = m.media_kind;
  caption = m.caption;
  edited_at = m.edited_at;
  conflicted = false;
  version = n.version + 1;
}

abbrev pub conflicted_snapshot : ArchiveMessageSnapshot → ArchiveMessageSnapshot
conflicted_snapshot n = record n { conflicted = true; version = n.version + 1 }

same_kind : MediaKind → MediaKind → Bool
same_kind photo photo = true
same_kind video video = true
same_kind document document = true
same_kind other other = true
same_kind _ _ = false

same_caption : Option String → Option String → Bool
same_caption none none = true
same_caption (some a) (some b) = str_eq a b
same_caption _ _ = false

pub data SnapshotStep : Type 0 where
  refuse conflict rewrite : SnapshotStep

-- The time of the message against the time of the snapshot, where the snapshot has one.
against : Bool → ArchiveMessage → ArchiveMessageSnapshot → ℕ → Option ℕ → SnapshotStep
unfolding same_kind same_caption
against is_live m n old none = refuse
against is_live m n old (some new) =
    if ltb new old
    then refuse
    else if new == old && is_live
    then if same_kind m.media_kind n.media_kind && same_caption m.caption n.caption
      then refuse
      else conflict
    else rewrite

-- An edit of a message that has a snapshot; a live edit has no expected version.
unfoldable pub edit_step : Bool → ArchiveMessage → ArchiveMessageSnapshot → SnapshotStep
unfolding against
edit_step is_live m n = elim n.edited_at [
  | none ↦ rewrite
  | some old ↦ against is_live m n old m.edited_at
]

-- `expected_version is not None and expected_version != ...`.
abbrev pub is_outdated : Option ℕ → Option ArchiveMessageSnapshot → Bool
is_outdated none n = false
is_outdated (some v) n = not (v == version_of n)

abbrev set_snapshots : List ArchiveMessageSnapshot → ArchiveStore → ArchiveStore
set_snapshots ns s = record s { snapshots = ns }

module _ (L : TextLibrary) where
  abbrev pub apply_step :
      ℕ → ArchiveMessage → ArchiveMessageSnapshot → SnapshotStep → Exec ArchiveStore IndexError Bool
  apply_step channel m n refuse s = (ok false, s)
  apply_step channel m n conflict s =
      let ns = put_snapshot (conflicted_snapshot n) s.snapshots in
      (on_catalog (invalidate_snapshot_conflict L ns channel m.message_id) >> pure false)
        (set_snapshots ns s)
  apply_step channel m n rewrite s =
      (ok true, set_snapshots (put_snapshot (rewritten_snapshot m n) s.snapshots) s)

  abbrev pub record_at :
      ℕ
      → ArchiveMessage
      → Bool
      → Option ℕ
      → Option ArchiveMessageSnapshot
      → Exec ArchiveStore IndexError Bool
  record_at channel m reconcile expected none s =
      (ok true, set_snapshots (new_snapshot channel m ∷ s.snapshots) s)
  record_at channel m reconcile expected (some n) s =
      if reconcile
      then apply_step channel m n (edit_step (is_none expected) m n) s
      else (ok false, s)

  -- `_record_snapshot`.
  unfoldable pub record_snapshot :
      ℕ → ArchiveMessage → Bool → Option ℕ → Exec ArchiveStore IndexError Bool
  unfolding put_snapshot
  record_snapshot channel m reconcile expected s =
      let n = snapshot_at channel m.message_id s.snapshots in
      if is_outdated expected n then (ok false, s) else record_at channel m reconcile expected n s

  -- The channel is the one of the settings.
  abbrev pub is_configured : ℕ → Option ℤ → Bool
  is_configured channel none = false
  is_configured channel (some n) = identifier n == channel

  abbrev pub when_recorded :
      ℕ
      → ArchiveMessage
      → (List ArchiveMessageSnapshot → Indexing ArchiveIndexResult)
      → Bool
      → Exec ArchiveStore IndexError ArchiveIndexResult
  when_recorded channel m index written s =
      if written
      then on_catalog (index s.snapshots) s
      else on_catalog (duplicate_result channel m.message_id) s

  abbrev pub with_channel :
      ℕ
      → ArchiveMessage
      → Exec ArchiveStore IndexError Bool
      → (List ArchiveMessageSnapshot → Indexing ArchiveIndexResult)
      → Option ℤ
      → Exec ArchiveStore IndexError ArchiveIndexResult
  with_channel channel m write index configured s =
      if is_configured channel configured
      then (write >>= when_recorded channel m index) s
      else (ok ignored_result, s)

  abbrev pub archive_channel : ArchiveStore → Exec ArchiveStore IndexError (Option ℤ)
  archive_channel s =
      get_int IndexError.setting_type_error (setting "archive_channel_id" s.database.settings)

  -- `ingest`; `id` is the identifier of the row that it may insert.
  unfoldable pub ingest : ℕ → ℕ → ArchiveMessage → Exec ArchiveStore IndexError ArchiveIndexResult
  ingest id channel m s =
      transaction
        (archive_channel s
          >>= with_channel channel m (record_snapshot channel m false none)
              (λ ns. index_message L ns id channel m))
        s

  -- `reconcile_edit`.
  unfoldable pub reconcile_edit :
      ℕ → ℕ → ArchiveMessage → Option ℕ → Exec ArchiveStore IndexError ArchiveIndexResult
  reconcile_edit id channel m expected s =
      transaction
        (archive_channel s
          >>= with_channel channel m (record_snapshot channel m true expected)
              (λ ns. index_edit L ns id channel m))
        s
