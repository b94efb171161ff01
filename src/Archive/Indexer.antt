-- ===== src/Archive/Indexer.antt =====
-- services/archive_indexer.py: ArchiveIndexService, one message of the archive channel at a time.
--
-- The functions of this file run after the snapshot of the message is recorded, on the tables of the
-- movies and qualities. An insert takes the identifier that the sequence of the table gives.
use cine_gate.Base.{
  ℕ, ◌==◌, leb, ltb, Bool, true, false, ◌&&◌, ◌||◌, not, String, Option, none, some, List, [], ◌∷◌,
  str_eq, if◌then◌else◌, is_some, ok, err, lookup,
}
use cine_gate.Models.{Movie, MovieQuality, MovieStatus}
use cine_gate.Archive.Messages.{ParsedQuality, Diagnostic, ParsedMovieGroup}
use cine_gate.Archive.Parser.{Groups}
use cine_gate.Archive.Store.{
  IndexAction, ArchiveIndexResult, ignored_result, IndexError, Indexing, quality_key, parsed_key,
  movie_key, put_quality, scalar, movie_at, movie_of_quality_at, quality_count,
}

abbrev pub movie_result : IndexAction → Option String → Movie → ℕ → ArchiveIndexResult
movie_result action diagnostic m n = record {
  action = action;
  movie_id = some m.id;
  display_title = some m.display_title;
  quality_count = n;
  owner_notification_message_id = m.owner_notification_message_id;
  owner_notification_quality_count = m.owner_notification_quality_count;
  diagnostic = diagnostic;
}

unfoldable pub result_for_movie : Movie → IndexAction → Option String → Indexing ArchiveIndexResult
result_for_movie m action diagnostic s =
    (ok (movie_result action diagnostic m (quality_count m.id s.qualities)), s)

abbrev pub is_ambiguous : MovieStatus → Bool
is_ambiguous MovieStatus.ambiguous = true
is_ambiguous _ = false

abbrev pub is_pending : MovieStatus → Bool
is_pending MovieStatus.pending = true
is_pending _ = false

abbrev pub or_duplicate : Option Movie → Indexing ArchiveIndexResult
or_duplicate none s = (ok ignored_result, s)
or_duplicate (some m) s =
    result_for_movie m
      (if is_ambiguous m.status then IndexAction.ambiguous else IndexAction.duplicate) none s

abbrev pub or_other : {A : Type 0} → Option A → Option A → Option A
or_other none o = o
or_other (some a) o = some a

unfoldable pub duplicate_result : ℕ → ℕ → Indexing ArchiveIndexResult
unfolding result_for_movie
duplicate_result channel message s =
    or_duplicate
      (or_other (movie_at channel message s.movies) (movie_of_quality_at channel message s)) s

-- The first group, where it is the group of the movie.
unfoldable pub matching_group : Movie → Groups → Indexing (Option ParsedMovieGroup)
matching_group m (ok []) s = (ok none, s)
matching_group m (ok (g ∷ gs)) s =
    (ok (if g.poster_message_id == m.poster_message_id then some g else none), s)
matching_group m (err e) s = (err IndexError.unordered_messages, s)

abbrev pub qualities_of : Option ParsedMovieGroup → List ParsedQuality
qualities_of none = []
qualities_of (some g) = g.qualities

revalidated_by : Option ParsedQuality → MovieQuality → MovieQuality
revalidated_by none q = record q { parser_confidence = 0 }
revalidated_by (some p) q =
    if str_eq p.quality q.quality
    then record q {
      parser_confidence = p.confidence;
      extracted_title = p.raw_title;
      normalized_title = p.normalized_title;
      extracted_year = p.year;
    }
    else record q { parser_confidence = 0 }

unfoldable pub revalidated : List ParsedQuality → MovieQuality → MovieQuality
unfolding revalidated_by
revalidated accepted q = revalidated_by (lookup parsed_key q.archive_message_id accepted) q

-- The status that the qualities and snapshots call for: total and invalid qualities, a conflict.
unfoldable pub refreshed_status : ℕ → ℕ → ℕ → Bool → MovieStatus
refreshed_status confidence total invalid conflict =
    if leb confidence 0 || ltb 0 invalid || conflict
    then MovieStatus.ambiguous
    else if ltb 0 total
    then MovieStatus.indexed
    else MovieStatus.orphan

-- A row of the upsert takes what the statement sets of the new row.
pub overwritten : MovieQuality → MovieQuality → MovieQuality
overwritten new old = record old {
  archive_channel_id = new.archive_channel_id;
  archive_message_id = new.archive_message_id;
  raw_caption = new.raw_caption;
  extracted_title = new.extracted_title;
  normalized_title = new.normalized_title;
  extracted_year = new.extracted_year;
  parser_confidence = new.parser_confidence;
}

-- Another row has the message of the row, which `uq_movie_qualities_archive_message` refuses.
abbrev pub is_message_taken : MovieQuality → List MovieQuality → Bool
is_message_taken q qs = is_some (
    scalar
      (λ r.
        r.archive_channel_id == q.archive_channel_id
        && r.archive_message_id == q.archive_message_id
        && not (r.id == q.id))
      qs)

unfoldable pub write_quality : MovieQuality → Option MovieQuality → Indexing Bool
unfolding overwritten
write_quality new none s =
    if is_some (lookup quality_key new.id s.qualities) || is_message_taken new s.qualities
    then (err IndexError.integrity_error, s)
    else (ok true, record s { qualities = new ∷ s.qualities })
write_quality new (some old) s =
    if ltb old.archive_message_id new.archive_message_id
    then if is_message_taken (overwritten new old) s.qualities
      then (err IndexError.integrity_error, s)
      else (ok true, put_quality (overwritten new old) s)
    else (ok false, s)

-- The statement `upsert`; it answers whether it wrote a row.
unfoldable pub upsert_statement : MovieQuality → Indexing Bool
unfolding write_quality
upsert_statement new s =
    write_quality new
      (scalar (λ q. q.movie_id == new.movie_id && str_eq q.quality new.quality) s.qualities) s

abbrev pub new_quality : ℕ → ℕ → ℕ → ParsedQuality → MovieQuality
new_quality id channel movie p = record {
  id = id;
  movie_id = movie;
  archive_channel_id = channel;
  archive_message_id = p.message_id;
  quality = p.quality;
  raw_caption = p.raw_caption;
  extracted_title = p.raw_title;
  normalized_title = p.normalized_title;
  extracted_year = p.year;
  parser_confidence = p.confidence;
}

abbrev pub new_movie : ℕ → ℕ → ParsedMovieGroup → Movie
new_movie id channel g = record {
  id = id;
  archive_channel_id = channel;
  poster_message_id = g.poster_message_id;
  display_title = g.display_title;
  normalized_title = g.normalized_title;
  year = g.year;
  parser_style = g.parser_style;
  status = MovieStatus.pending;
  raw_poster_caption = g.raw_poster_caption;
  parser_confidence = g.poster_confidence;
  owner_notification_message_id = none;
  owner_notification_quality_count = 0;
}

-- `insert(Movie)` of a row that no unique constraint but the primary key can refuse.
unfoldable pub insert_movie : Movie → Indexing (Unit {0})
insert_movie m s =
    if is_some (lookup movie_key m.id s.movies)
    then (err IndexError.integrity_error, s)
    else (ok tt, record s { movies = m ∷ s.movies })

-- A diagnostic that starts with `ambiguous_quality:{message}:`.
pub is_ambiguous_note : ℕ → List Diagnostic → Bool
is_ambiguous_note k [] = false
is_ambiguous_note k (Diagnostic.ambiguous_quality message score ∷ ds) =
    message == k || is_ambiguous_note k ds
is_ambiguous_note k (d ∷ ds) = is_ambiguous_note k ds

abbrev pub ambiguous_or : Movie → IndexAction → IndexAction
ambiguous_or m action = if is_ambiguous m.status then IndexAction.ambiguous else action

abbrev pub if_ambiguous : Movie → String → Option String → Option String
if_ambiguous m text other = if is_ambiguous m.status then some text else other
