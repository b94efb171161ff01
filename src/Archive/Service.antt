-- ===== src/Archive/Service.antt =====
-- services/archive_indexer.py: what ArchiveIndexService does with a message, once its snapshot is
-- recorded. The parser keeps its default of one noise message.
use cine_gate.Base.{
  ℕ, leb, ltb, Bool, true, false, String, Option, none, some, List, if◌then◌else◌, is_some, or_else,
  ok, pure, modify, ◌>>=◌, ◌>>◌, update_where, count, lookup,
}
use cine_gate.Models.{Movie, MovieQuality, MovieStatus}
use cine_gate.Archive.Text.{TextLibrary}
use cine_gate.Archive.Messages.{ArchiveMessage, ParsedQuality, ParsedMovieGroup}
use cine_gate.Archive.Parser.{first_group}
use cine_gate.Archive.Store.{
  ArchiveMessageSnapshot, IndexAction, ArchiveIndexResult, ignored_result, Catalog, Indexing,
  parsed_key, put_movie, put_quality, movie_at, movie_before, is_of, is_invalid_of, quality_count,
  has_conflict, group_messages,
}
use cine_gate.Archive.Indexer.{
  result_for_movie, is_pending, duplicate_result, matching_group, qualities_of, revalidated,
  refreshed_status, upsert_statement, new_quality, new_movie, insert_movie, is_ambiguous_note,
  ambiguous_or, if_ambiguous,
}

abbrev pub edited_title : ParsedMovieGroup → Movie → Movie
edited_title g m = record m {
  display_title = g.display_title;
  normalized_title = g.normalized_title;
  year = g.year;
  parser_style = g.parser_style;
  raw_poster_caption = g.raw_poster_caption;
  parser_confidence = g.poster_confidence;
}

abbrev pub edited_quality : ParsedQuality → MovieQuality → MovieQuality
edited_quality p q = record q {
  quality = p.quality;
  raw_caption = p.raw_caption;
  extracted_title = p.raw_title;
  normalized_title = p.normalized_title;
  extracted_year = p.year;
  parser_confidence = p.confidence;
}

abbrev pub invalid_quality : ArchiveMessage → MovieQuality → MovieQuality
invalid_quality message q = record q {
  raw_caption = or_else message.caption "";
  extracted_title = none;
  normalized_title = none;
  extracted_year = none;
  parser_confidence = 0;
}

abbrev pub invalid_poster : ArchiveMessage → Movie → Movie
invalid_poster message m = record m {
  status = MovieStatus.ambiguous;
  raw_poster_caption = or_else message.caption "";
  parser_confidence = 0;
}

abbrev pub ambiguous_movie : Movie → Movie
ambiguous_movie m = record m { status = MovieStatus.ambiguous }

-- The movie loses its status and one of its qualities changes; the action is `ambiguous`.
abbrev pub set_aside : Movie → MovieQuality → String → Indexing ArchiveIndexResult
set_aside m q diagnostic = do
  modify (put_quality q)
  modify (put_movie (ambiguous_movie m))
  result_for_movie (ambiguous_movie m) IndexAction.ambiguous (some diagnostic)

abbrev pub closed_status : MovieStatus → ℕ → MovieStatus
closed_status s total =
    if is_pending s then if ltb 0 total then MovieStatus.indexed else MovieStatus.orphan else s

abbrev pub closed_poster : Movie → Catalog → Movie
closed_poster m s = record m { status = closed_status m.status (quality_count m.id s.qualities) }

module _ (L : TextLibrary) (snapshots : List ArchiveMessageSnapshot) where
  unfoldable pub parse_movie_group : Movie → Option ℕ → Indexing (Option ParsedMovieGroup)
  unfolding matching_group
  parse_movie_group m through s =
      if leb m.parser_confidence 0
      then (ok none, s)
      else matching_group m
          (first_group L 1 (some 32) (group_messages m through s.movies snapshots)) s

  abbrev pub revalidate_with : Movie → Option ParsedMovieGroup → Catalog → Catalog
  revalidate_with m g s = record s {
    qualities = update_where (is_of m.id) (revalidated (qualities_of g)) s.qualities;
  }

  unfoldable pub revalidate_attached_qualities : Movie → Indexing (Unit {0})
  unfolding parse_movie_group
  revalidate_attached_qualities m = do g ← parse_movie_group m none; modify (revalidate_with m g)

  abbrev pub refreshed : Movie → Catalog → Movie
  refreshed m s = record m {
    status =
        refreshed_status m.parser_confidence (quality_count m.id s.qualities)
          (count (is_invalid_of m.id) s.qualities) (has_conflict m s.movies snapshots);
  }

  -- The answer is the row with its new status.
  unfoldable pub refresh_movie_status : Movie → Indexing Movie
  refresh_movie_status m s = (ok (refreshed m s), put_movie (refreshed m s) s)

  -- Both, as they follow each other.
  abbrev pub settle : Movie → Indexing Movie
  settle m = do revalidate_attached_qualities m; refresh_movie_status m

  abbrev pub settle_before : Option Movie → Indexing ArchiveIndexResult
  settle_before none s = (ok ignored_result, s)
  settle_before (some m) s = (settle m >>= λ _. pure ignored_result) s

  unfoldable pub reconcile_boundary : ℕ → ℕ → Indexing ArchiveIndexResult
  unfolding revalidate_attached_qualities refresh_movie_status
  reconcile_boundary channel message s = settle_before (movie_before channel message s.movies) s

  -- The insert of the poster and what follows it, after the movie before it.
  abbrev pub after_previous : ℕ → ℕ → ParsedMovieGroup → Option Movie → Indexing ArchiveIndexResult
  after_previous id channel g none = do
    insert_movie (new_movie id channel g)
    result_for_movie (new_movie id channel g) IndexAction.poster_upserted none
  after_previous id channel g (some m) = do
    insert_movie (new_movie id channel g)
    closed ← settle m
    result_for_movie (new_movie id channel g) IndexAction.poster_upserted none

  abbrev pub insert_poster : ℕ → ℕ → ParsedMovieGroup → Option Movie → Indexing ArchiveIndexResult
  insert_poster id channel g previous s =
      if is_some (movie_at channel g.poster_message_id s.movies)
      then duplicate_result channel g.poster_message_id s
      else after_previous id channel g previous s

  abbrev pub from_previous : ℕ → ℕ → ParsedMovieGroup → Option Movie → Indexing ArchiveIndexResult
  from_previous id channel g none s = insert_poster id channel g none s
  from_previous id channel g (some m) s =
      insert_poster id channel g (some (closed_poster m s)) (put_movie (closed_poster m s) s)

  unfoldable pub upsert_poster : ℕ → ℕ → ParsedMovieGroup → Indexing ArchiveIndexResult
  unfolding refresh_movie_status
  upsert_poster id channel g s =
      from_previous id channel g (movie_before channel g.poster_message_id s.movies) s

  abbrev pub ambiguous_if : Bool → Movie → Indexing ArchiveIndexResult
  ambiguous_if true m =
      result_for_movie m IndexAction.ambiguous (some "quality_candidate_ambiguous")
  ambiguous_if false m = result_for_movie m IndexAction.ignored none

  abbrev pub answer_quality : Bool → Movie → Indexing ArchiveIndexResult
  answer_quality changed n =
      result_for_movie n
        (ambiguous_or n (if changed then IndexAction.quality_upserted else IndexAction.duplicate))
        (if_ambiguous n "quality_saved_but_movie_has_invalid_archive_metadata" none)

  unfoldable pub upsert_parsed : ℕ → ℕ → Movie → ParsedQuality → Indexing ArchiveIndexResult
  upsert_parsed id channel m p = do
    changed ← upsert_statement (new_quality id channel m.id p)
    n ← settle m
    answer_quality changed n

  abbrev pub quality_in :
      ℕ
      → ℕ
      → ArchiveMessage
      → Movie
      → ParsedMovieGroup
      → Option ParsedQuality
      → Indexing ArchiveIndexResult
  quality_in id channel message m g none =
      ambiguous_if (is_ambiguous_note message.message_id g.diagnostics) m
  quality_in id channel message m g (some p) = upsert_parsed id channel m p

  abbrev pub quality_in_group :
      ℕ → ℕ → ArchiveMessage → Movie → Option ParsedMovieGroup → Indexing ArchiveIndexResult
  quality_in_group id channel message m none = pure ignored_result
  quality_in_group id channel message m (some g) =
      quality_in id channel message m g (lookup parsed_key message.message_id g.qualities)

  abbrev pub quality_after : ℕ → ℕ → ArchiveMessage → Option Movie → Indexing ArchiveIndexResult
  quality_after id channel message none s = (ok ignored_result, s)
  quality_after id channel message (some m) s =
      (parse_movie_group m (some message.message_id) >>= quality_in_group id channel message m) s

  unfoldable pub upsert_quality : ℕ → ℕ → ArchiveMessage → Indexing ArchiveIndexResult
  unfolding upsert_parsed
  upsert_quality id channel message s =
      quality_after id channel message (movie_before channel message.message_id s.movies) s
