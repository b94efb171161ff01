-- ===== src/Archive/Edits.antt =====
-- services/archive_indexer.py: the edits of posters and qualities, and what the two entry points do
-- after the snapshot is recorded.
use cine_gate.Base.{
  ℕ, ◌==◌, Bool, ◌&&◌, not, String, Option, none, some, List, [], ◌∷◌, str_eq, if◌then◌else◌,
  is_some, or_else, ok, err, pure, raise, modify, ◌>>=◌, ◌>>◌, lookup,
}
use cine_gate.Models.{Movie, MovieQuality}
use cine_gate.Archive.Text.{TextLibrary, extract_quality}
use cine_gate.Archive.Messages.{ArchiveMessage, ParsedQuality, ParsedMovieGroup, is_photo, is_media}
use cine_gate.Archive.Parser.{Groups, parse}
use cine_gate.Archive.Store.{
  ArchiveMessageSnapshot, IndexAction, ArchiveIndexResult, IndexError, Indexing, parsed_key,
  put_movie, put_quality, scalar, movie_at, quality_at_message, movie_of_quality_at,
}
use cine_gate.Archive.Indexer.{result_for_movie, ambiguous_or, if_ambiguous}
use cine_gate.Archive.Service.{
  edited_title, edited_quality, invalid_quality, invalid_poster, ambiguous_movie, set_aside,
  parse_movie_group, settle, reconcile_boundary, upsert_poster, upsert_quality,
}

-- The quality of the group at the message.
abbrev pub parsed_at : ℕ → Option ParsedMovieGroup → Option ParsedQuality
parsed_at k none = none
parsed_at k (some g) = lookup parsed_key k g.qualities

-- Another quality of the movie has the label.
abbrev pub is_label_taken : Movie → MovieQuality → String → List MovieQuality → Bool
is_label_taken m q label qs =
    is_some (scalar (λ r. r.movie_id == m.id && str_eq r.quality label && not (r.id == q.id)) qs)

module _ (L : TextLibrary) (snapshots : List ArchiveMessageSnapshot) where
  abbrev pub answer_poster : Movie → Indexing ArchiveIndexResult
  answer_poster n =
      result_for_movie n (ambiguous_or n IndexAction.poster_upserted)
        (if_ambiguous n "edited_poster_valid_but_quality_remains_invalid" none)

  abbrev pub answer_edit : Movie → Indexing ArchiveIndexResult
  answer_edit n = result_for_movie n (ambiguous_or n IndexAction.quality_upserted) (
      if_ambiguous n "edited_quality_reconciled_but_movie_remains_ambiguous"
        (some "edited_quality_reconciled"))

  -- `_reconcile_poster_edit`, given what the parser makes of the message.
  abbrev pub edited_poster : Movie → ArchiveMessage → Groups → Indexing ArchiveIndexResult
  edited_poster m message (err e) = raise IndexError.unordered_messages
  edited_poster m message (ok []) = do
    modify (put_movie (invalid_poster message m))
    result_for_movie (invalid_poster message m) IndexAction.ambiguous (some "edited_poster_invalid")
  edited_poster m message (ok (g ∷ gs)) = do
    modify (put_movie (edited_title g m))
    n ← settle L snapshots (edited_title g m)
    answer_poster n

  unfoldable pub reconcile_poster_edit : Movie → ArchiveMessage → Indexing ArchiveIndexResult
  reconcile_poster_edit m message =
      if is_photo message.media_kind
      then edited_poster m message (parse L 1 (message ∷ []))
      else (do
        modify (put_movie (invalid_poster message m))
        result_for_movie (invalid_poster message m) IndexAction.ambiguous
            (some "edited_poster_media_invalid"))

  unfoldable pub invalidate_quality_edit :
      Movie → MovieQuality → ArchiveMessage → String → Indexing ArchiveIndexResult
  invalidate_quality_edit m q message diagnostic =
      set_aside m (invalid_quality message q) diagnostic

  abbrev pub accept_edit : Movie → MovieQuality → ParsedQuality → Indexing ArchiveIndexResult
  accept_edit m q p = do
    modify (put_quality (edited_quality p q))
    n ← settle L snapshots m
    answer_edit n

  abbrev pub conflicting_edit : Movie → MovieQuality → ArchiveMessage → Indexing ArchiveIndexResult
  conflicting_edit m q message =
      set_aside m (record q { raw_caption = or_else message.caption ""; parser_confidence = 0 })
        "edited_quality_conflicts_with_existing_quality"

  abbrev pub edited_to :
      Movie → MovieQuality → ArchiveMessage → Option ParsedQuality → Indexing ArchiveIndexResult
  unfolding invalidate_quality_edit
  edited_to m q message none s = invalidate_quality_edit m q message "edited_quality_ambiguous" s
  edited_to m q message (some p) s =
      if not (str_eq p.quality q.quality) && is_label_taken m q p.quality s.qualities
      then conflicting_edit m q message s
      else accept_edit m q p s

  unfoldable pub reconcile_quality_edit :
      Movie → MovieQuality → ArchiveMessage → Indexing ArchiveIndexResult
  unfolding invalidate_quality_edit
  reconcile_quality_edit m q message =
      if is_media message.media_kind
      then (do
        g ← parse_movie_group L snapshots m (some message.message_id)
        edited_to m q message (parsed_at message.message_id g))
      else invalidate_quality_edit m q message "edited_quality_media_invalid"

  abbrev pub posted : ℕ → ℕ → ArchiveMessage → Groups → Indexing ArchiveIndexResult
  posted id channel message (err e) = raise IndexError.unordered_messages
  posted id channel message (ok []) = reconcile_boundary L snapshots channel message.message_id
  posted id channel message (ok (g ∷ gs)) = upsert_poster L snapshots id channel g

  -- The end of both entry points: a poster, a quality, or an interruption.
  unfoldable pub index_message : ℕ → ℕ → ArchiveMessage → Indexing ArchiveIndexResult
  index_message id channel message =
      if is_photo message.media_kind
      then posted id channel message (parse L 1 (message ∷ []))
      else if is_media message.media_kind && is_some (extract_quality L message.caption)
      then upsert_quality L snapshots id channel message
      else reconcile_boundary L snapshots channel message.message_id

  abbrev pub edit_quality :
      ℕ → ℕ → ArchiveMessage → Option MovieQuality → Option Movie → Indexing ArchiveIndexResult
  edit_quality id channel message (some q) (some m) = reconcile_quality_edit m q message
  edit_quality id channel message _ _ = index_message id channel message

  abbrev pub edit_message : ℕ → ℕ → ArchiveMessage → Option Movie → Indexing ArchiveIndexResult
  edit_message id channel message (some m) s = reconcile_poster_edit m message s
  edit_message id channel message none s =
      edit_quality id channel message (quality_at_message channel message.message_id s.qualities)
        (movie_of_quality_at channel message.message_id s) s

  -- What `reconcile_edit` does after the snapshot.
  unfoldable pub index_edit : ℕ → ℕ → ArchiveMessage → Indexing ArchiveIndexResult
  unfolding reconcile_poster_edit reconcile_quality_edit index_message
  index_edit id channel message s =
      edit_message id channel message (movie_at channel message.message_id s.movies) s

  -- `_invalidate_snapshot_conflict`.
  abbrev pub hide_quality : ℕ → ℕ → Option MovieQuality → Option Movie → Indexing (Unit {0})
  hide_quality channel k (some q) (some m) = do
    modify (put_quality (record q { parser_confidence = 0 }))
    modify (put_movie (ambiguous_movie m))
  hide_quality channel k _ _ = do r ← reconcile_boundary L snapshots channel k; pure tt

  abbrev pub hide_movie : ℕ → ℕ → Option Movie → Indexing (Unit {0})
  hide_movie channel k (some m) s =
      modify (put_movie (ambiguous_movie (record m { parser_confidence = 0 }))) s
  hide_movie channel k none s =
      hide_quality channel k (quality_at_message channel k s.qualities)
        (movie_of_quality_at channel k s) s

  unfoldable pub invalidate_snapshot_conflict : ℕ → ℕ → Indexing (Unit {0})
  invalidate_snapshot_conflict channel k s = hide_movie channel k (movie_at channel k s.movies) s
