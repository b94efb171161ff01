-- ===== src/Archive/Examples.antt =====
-- The theorems on the archive at a small channel, and tests of its code.
use mathlib.Core.Path.{subst}
use cine_gate.Base.{
  ◌⊎◌, ◌≢◌, select_first, select_where, update_where, lookup, put, count, order_by, insert_by, All,
  ◌↔◌, truncate, ℕ, ◌≡◌, refl, arith, true, false, Option, none, some, List, [], ◌∷◌, String,
  str_eq, if◌then◌else◌, ok, err,
}
use cine_gate.Models.{
  RewardSession, RewardStatus, archive_movie_unsafe, Movie, MovieQuality, setting, get_int,
  SettingValue, pos, MovieStatus, ParserStyle,
}
use cine_gate.Archive.Text.{
  TextLibrary, YearMatch, clean_display_title, normalize_title, extract_quality, extract_year,
  extract_release_year, remove_quality_token, strip_year, strip_bot_usernames,
}
use cine_gate.Archive.Messages.{
  MediaKind, GroupStatus, ArchiveMessage, ParsedQuality, ParsedMovieGroup, is_photo, is_media,
}
use cine_gate.Archive.Posters.{
  bounded_caption, extract_fields, extract_freeform_quality_title, PosterCandidate,
  QualityCandidate, detect_poster, detect_quality, score_quality,
}
use cine_gate.Archive.Parser.{ParserError, parse, iter_groups, first_group}
use cine_gate.Archive.Parser.Groups.{IsGroup, iter_groups-IsGroup}
use cine_gate.Archive.Parser.Order.{are_ascending, succeeds, parse-are_ascending}
use cine_gate.Archive.Parser.Posters.{poster_ids, posters, iter_groups-posters}
use cine_gate.Archive.Store.{
  has_conflict, group_messages, quality_at_message, movie_of, IndexAction, ArchiveIndexResult,
  identifier, movie_before, movie_at, quality_count, ArchiveStore,
}
use cine_gate.Archive.Indexer.{
  upsert_statement, write_quality, matching_group, refreshed_status, revalidated, insert_movie,
  result_for_movie,
}
use cine_gate.Archive.Service.{
  upsert_poster, upsert_quality, upsert_parsed, reconcile_boundary, refresh_movie_status,
  parse_movie_group, revalidate_attached_qualities,
}
use cine_gate.Archive.Edits.{index_message}
use cine_gate.Archive.Runs.{IsSafeStore, ArchiveRuns, start, posted, ArchiveRuns-IsSafeStore}
use cine_gate.Archive.Replays.{ingest-ingest, reconcile_edit-outdated, reconcile_edit-older}
use cine_gate.Archive.Availability.{IsBoundTo, IsSure, availability, ArchiveRuns-availability}
use cine_gate.Archive.Ingest.{
  new_snapshot, record_snapshot, snapshot_at, version_of, ingest, reconcile_edit,
}

-- A library that knows the texts of the example.
abbrev quality_label : String → Option String
quality_label t = if str_eq t "a" then some "480p" else if str_eq t "b" then some "720p" else none

abbrev film_field : String → Option (String × String)
film_field t =
    if str_eq t "t"
    then some ("\u{641}\u{64a}\u{644}\u{645}", "f")
    else if str_eq t "y"
    then some ("\u{627}\u{644}\u{633}\u{646}\u{629}", "n")
    else none

abbrev poster_lines : String → List String
poster_lines t = if str_eq t "p" then "t" ∷ "y" ∷ [] else t ∷ []

abbrev year_of : String → List YearMatch
year_of t = if str_eq t "n" then record { before = ""; after = ""; year = 1999 } ∷ [] else []

abbrev texts : TextLibrary
texts = record {
  find_years = year_of;
  search_quality = quality_label;
  sub_qualities = λ t. if str_eq t "a" then "f" else if str_eq t "b" then "f" else t;
  sub_usernames = λ t. t;
  sub_punctuation = λ t. t;
  sub_spaces = λ t. t;
  has_word = λ t. true;
  match_field = film_field;
  strip = λ t. t;
  strip_dashes = λ t. t;
  strip_marks = λ t. t;
  lower = λ t. t;
  casefold = λ t. t;
  nfkc = λ t. t;
  replace_signs = λ t. t;
  split_words = λ t. t ∷ [];
  join_words = λ ts. elim ts [ [] ↦ "" | t ∷ _ ↦ t ];
  split_lines = poster_lines;
  is_in = λ a b. false;
  ratio = λ a b. if str_eq a b then 100 else 0;
}

abbrev message : ℕ → MediaKind → String → ArchiveMessage
message id kind text = record {
  message_id = id;
  media_kind = kind;
  caption = some text;
  edited_at = none;
}

abbrev poster : ArchiveMessage
poster = message 10 MediaKind.photo "p"

abbrev low : ArchiveMessage
low = message 11 MediaKind.video "a"

abbrev high : ArchiveMessage
high = message 12 MediaKind.document "b"

abbrev candidate : PosterCandidate
candidate = record {
  message = poster;
  raw_title = "f";
  display_title = "f";
  normalized_title = "f";
  year = some 1999;
  style = ParserStyle.legacy;
  confidence = 82;
}

detected : detect_poster texts poster ≡ some candidate
unfolding detect_poster extract_fields clean_display_title normalize_title is_photo bounded_caption
    truncate extract_year
detected = refl

abbrev low_candidate : QualityCandidate
low_candidate = record {
  message = low;
  quality = "480p";
  raw_title = some "f";
  normalized_title = some "f";
  year = none;
}

quality_detected : detect_quality texts low ≡ some low_candidate
unfolding detect_quality extract_quality extract_release_year remove_quality_token
    extract_freeform_quality_title strip_year strip_bot_usernames normalize_title extract_fields
    is_media bounded_caption truncate
quality_detected = refl

scored : score_quality texts candidate low_candidate 1 ≡ 90
unfolding score_quality
scored = refl

abbrev low_parsed : ParsedQuality
low_parsed = record {
  message_id = 11;
  quality = "480p";
  raw_caption = "a";
  raw_title = some "f";
  normalized_title = some "f";
  year = none;
  confidence = 90;
}

abbrev group : ParsedMovieGroup
group = record {
  poster_message_id = 10;
  raw_poster_caption = "p";
  raw_title = "f";
  display_title = "f";
  normalized_title = "f";
  year = some 1999;
  parser_style = ParserStyle.legacy;
  status = GroupStatus.indexed;
  poster_confidence = 82;
  qualities = low_parsed ∷ [];
  diagnostics = [];
}

abbrev posts : List ArchiveMessage
posts = poster ∷ low ∷ []

grouped : iter_groups texts 1 none posts ≡ ok (group ∷ [])
unfolding iter_groups detect_poster detect_quality score_quality is_photo is_media bounded_caption
    truncate extract_fields clean_display_title normalize_title extract_year extract_quality
    extract_release_year remove_quality_token extract_freeform_quality_title strip_year
    strip_bot_usernames order_by insert_by
grouped = refl

iter_groups-IsGroup_example : All IsGroup (group ∷ [])
iter_groups-IsGroup_example = iter_groups-IsGroup texts 1 none posts (group ∷ []) grouped

iter_groups-posters_example : poster_ids (group ∷ []) ≡ posters texts posts
iter_groups-posters_example = iter_groups-posters texts 1 none posts (group ∷ []) grouped

parse-are_ascending_example :
    (succeeds (parse texts 1 (low ∷ poster ∷ [])) ≡ are_ascending 0 (low ∷ poster ∷ []))
    × ((are_ascending 0 (low ∷ poster ∷ []) ≡ false)
        ↔ (parse texts 1 (low ∷ poster ∷ []) ≡ err ParserError.unordered_messages))
parse-are_ascending_example = parse-are_ascending texts 1 (low ∷ poster ∷ [])

-- A store of the channel 100 with nothing in it.
abbrev empty : ArchiveStore
empty = record {
  database = record {
    movies = [];
    qualities = [];
    rewards = [];
    deliveries = [];
    settings = ("archive_channel_id", SettingValue.integer (pos 50)) ∷ [];
  };
  snapshots = [];
}

empty-IsSafeStore : IsSafeStore empty
empty-IsSafeStore = ((tt, tt, tt), tt)

abbrev after_poster : ArchiveStore
after_poster = (ingest texts 1 100 poster empty).1

abbrev after_low : ArchiveStore
after_low = (ingest texts 5 100 low after_poster).1

abbrev two_posts : ArchiveRuns texts empty after_low
two_posts = posted 5 100 low (posted 1 100 poster start)

ArchiveRuns-IsSafeStore_example : IsSafeStore after_low
ArchiveRuns-IsSafeStore_example = ArchiveRuns-IsSafeStore texts empty-IsSafeStore two_posts

abbrev poster_result : ArchiveIndexResult
poster_result = record {
  action = IndexAction.poster_upserted;
  movie_id = some 1;
  display_title = some "f";
  quality_count = 0;
  owner_notification_message_id = none;
  owner_notification_quality_count = 0;
  diagnostic = none;
}

abbrev film : Movie
film = record {
  id = 1;
  archive_channel_id = 100;
  poster_message_id = 10;
  display_title = "f";
  normalized_title = "f";
  year = some 1999;
  parser_style = ParserStyle.legacy;
  status = MovieStatus.pending;
  raw_poster_caption = "p";
  parser_confidence = 82;
  owner_notification_message_id = none;
  owner_notification_quality_count = 0;
}

abbrev with_poster : ArchiveStore
with_poster = record {
  database = record empty.database { movies = film ∷ [] };
  snapshots = new_snapshot 100 poster ∷ [];
}

posted_once : ingest texts 1 100 poster empty ≡ (ok poster_result, with_poster)
unfolding ingest index_message parse upsert_poster record_snapshot snapshot_at setting get_int
    identifier movie_before movie_at select_first lookup insert_movie result_for_movie quality_count
    count detect_poster detect_quality score_quality is_photo is_media bounded_caption truncate
    extract_fields clean_display_title normalize_title extract_year extract_quality
    extract_release_year remove_quality_token extract_freeform_quality_title strip_year
    strip_bot_usernames order_by insert_by
posted_once = refl

ingest-ingest_example : (ingest texts 2 100 poster with_poster).1 ≡ with_poster
ingest-ingest_example =
    ingest-ingest texts 1 2 100 poster empty with_poster poster_result posted_once

reconcile_edit-outdated_example :
    (reconcile_edit texts 2 100 low (some 3) with_poster).1 ≡ with_poster
unfolding snapshot_at version_of
reconcile_edit-outdated_example =
    reconcile_edit-outdated texts 2 100 3 low with_poster (ground arith)

abbrev edited_at : ℕ → ArchiveMessage → ArchiveMessage
edited_at now m = record m { edited_at = some now }

abbrev with_edit : ArchiveStore
with_edit = record with_poster { snapshots = new_snapshot 100 (edited_at 9 poster) ∷ [] }

reconcile_edit-older_example :
    (reconcile_edit texts 2 100 (edited_at 8 poster) none with_edit).1 ≡ with_edit
unfolding snapshot_at
reconcile_edit-older_example =
    reconcile_edit-older texts 2 100 9 8 (edited_at 8 poster)
      (new_snapshot 100 (edited_at 9 poster)) with_edit refl refl refl (omega arith)

abbrev reward : RewardSession
reward = record {
  id = 3;
  telegram_user_id = 7;
  movie_id = 1;
  movie_quality_id = 5;
  quality = "480p";
  status = RewardStatus.rewarded;
  prompt_message_id = none;
  prompt_claimed_at = none;
  created_at = 0;
  expires_at = 600;
  client_completed_at = some 1;
  provider_confirmed_at = some 1;
  rewarded_at = some 1;
  unavailable_at = none;
  unavailable_reason = none;
  delivery_started_at = none;
  delivered_at = none;
}

abbrev film_quality : MovieQuality
film_quality = record {
  id = 5;
  movie_id = 1;
  archive_channel_id = 100;
  archive_message_id = 11;
  quality = "480p";
  raw_caption = "a";
  extracted_title = some "f";
  normalized_title = some "f";
  extracted_year = none;
  parser_confidence = 90;
}

abbrev indexed_film : Movie
indexed_film = record film { status = MovieStatus.indexed }

abbrev with_quality : ArchiveStore
with_quality = record with_poster {
  database = record empty.database { movies = indexed_film ∷ []; qualities = film_quality ∷ [] };
  snapshots = new_snapshot 100 low ∷ new_snapshot 100 poster ∷ [];
}

posted_low : (ingest texts 5 100 low with_poster).1 ≡ with_quality
unfolding has_conflict select_where update_where group_messages first_group ingest index_message
    upsert_quality upsert_parsed reconcile_boundary refresh_movie_status parse_movie_group
    revalidate_attached_qualities upsert_statement write_quality matching_group refreshed_status
    revalidated quality_at_message movie_of record_snapshot snapshot_at setting get_int identifier
    movie_before movie_at select_first lookup put result_for_movie quality_count count detect_poster
    detect_quality score_quality is_photo is_media bounded_caption truncate extract_fields
    clean_display_title normalize_title extract_year extract_quality extract_release_year
    remove_quality_token extract_freeform_quality_title strip_year strip_bot_usernames order_by
    insert_by
posted_low = refl

with_poster-IsSafeStore : IsSafeStore with_poster
unfolding count lookup quality_count
with_poster-IsSafeStore = (((refl, tt), tt, tt), (refl, tt))

low_posted : ArchiveRuns texts with_poster with_quality
low_posted = subst (ArchiveRuns texts with_poster) posted_low (posted 5 100 low start)

reward-IsBoundTo : IsBoundTo reward with_quality indexed_film film_quality
unfolding lookup
reward-IsBoundTo = record { movie = refl; quality = refl; of_movie = refl; same_label = refl }

ArchiveRuns-availability_example :
    ((availability reward with_quality ≡ none) × IsSure with_quality indexed_film film_quality)
    ⊎ ((availability reward with_quality ≡ some archive_movie_unsafe)
        × (indexed_film.status ≢ MovieStatus.indexed))
ArchiveRuns-availability_example =
    ArchiveRuns-availability texts reward indexed_film film_quality with_poster-IsSafeStore
      low_posted reward-IsBoundTo
