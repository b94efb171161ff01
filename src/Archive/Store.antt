-- ===== src/Archive/Store.antt =====
-- db/archive_models.py, domain/indexing.py, and the queries of services/archive_indexer.py.
--
-- The session has no autoflush, and no query of the service reads a column that it has set and not
-- flushed: a write is in the tables at once. The locks order concurrent transactions.
use cine_gate.Base.{
  ℕ, ◌+◌, ◌*◌, ◌==◌, leb, ltb, min, Bool, true, false, ◌&&◌, String, Option, none, some, List, [],
  ◌∷◌, map, if◌then◌else◌, is_some, or_else, Exec, select_first, select_where, order_by, count,
  lookup, put,
}
use cine_gate.Models.{Movie, MovieQuality, Database, ℤ, pos, negsuc}
use cine_gate.Archive.Messages.{MediaKind, ArchiveMessage, ParsedQuality}

pub record ArchiveMessageSnapshot : Type 0 where
  pub archive_channel_id : ℕ
  pub message_id : ℕ
  pub media_kind : MediaKind
  pub caption : Option String
  pub edited_at : Option ℕ
  pub conflicted : Bool
  pub version : ℕ

pub data IndexAction : Type 0 where
  ignored poster_upserted quality_upserted duplicate ambiguous : IndexAction

pub record ArchiveIndexResult : Type 0 where
  pub action : IndexAction
  pub movie_id : Option ℕ
  pub display_title : Option String
  pub quality_count : ℕ
  pub owner_notification_message_id : Option ℕ
  pub owner_notification_quality_count : ℕ
  pub diagnostic : Option String

-- `ArchiveIndexResult(IndexAction.IGNORED)`.
pub ignored_result : ArchiveIndexResult
ignored_result = record {
  action = IndexAction.ignored;
  movie_id = none;
  display_title = none;
  quality_count = 0;
  owner_notification_message_id = none;
  owner_notification_quality_count = 0;
  diagnostic = none;
}

is_notified_action : IndexAction → Bool
is_notified_action IndexAction.poster_upserted = true
is_notified_action IndexAction.quality_upserted = true
is_notified_action IndexAction.duplicate = true
is_notified_action _ = false

pub should_notify_owner : ArchiveIndexResult → Bool
unfolding is_notified_action
should_notify_owner r =
    is_some r.movie_id
    && is_notified_action r.action
    && ltb r.owner_notification_quality_count r.quality_count

-- The tables that the service writes after the snapshot is recorded.
pub record Catalog : Type 0 where
  pub movies : List Movie
  pub qualities : List MovieQuality

pub record ArchiveStore : Type 0 where
  pub database : Database
  pub snapshots : List ArchiveMessageSnapshot

pub data IndexError : Type 0 where
  integrity_error unordered_messages setting_type_error : IndexError

abbrev pub Indexing : Type 0 → Type 0
Indexing = Exec Catalog IndexError

abbrev pub movie_key : Movie → ℕ
movie_key m = m.id

abbrev pub quality_key : MovieQuality → ℕ
quality_key q = q.id

abbrev pub parsed_key : ParsedQuality → ℕ
parsed_key q = q.message_id

abbrev pub put_movie : Movie → Catalog → Catalog
put_movie m s = record s { movies = put movie_key m s.movies }

abbrev pub put_quality : MovieQuality → Catalog → Catalog
put_quality q s = record s { qualities = put quality_key q s.qualities }

abbrev pub catalog_of : ArchiveStore → Catalog
catalog_of s = record { movies = s.database.movies; qualities = s.database.qualities }

abbrev pub with_catalog : Catalog → ArchiveStore → ArchiveStore
with_catalog c s = record s {
  database = record s.database { movies = c.movies; qualities = c.qualities };
}

abbrev pub on_catalog : {A : Type 0} → Indexing A → Exec ArchiveStore IndexError A
on_catalog m s = let r = m (catalog_of s) in (r.0, with_catalog r.1 s)

-- The number that stands for a channel: the integers are counted from 0 to both sides.
unfoldable pub identifier : ℤ → ℕ
identifier (pos n) = n * 2
identifier (negsuc n) = n * 2 + 1

-- `session.scalar` of a query whose columns are unique.
abbrev pub scalar : {R : Type 0} → (R → Bool) → List R → Option R
scalar p rs = select_first (λ r s. true) p rs

unfoldable pub movie_at : ℕ → ℕ → List Movie → Option Movie
movie_at channel message ms =
    scalar (λ m. m.archive_channel_id == channel && m.poster_message_id == message) ms

unfoldable pub quality_at_message : ℕ → ℕ → List MovieQuality → Option MovieQuality
quality_at_message channel message qs =
    scalar (λ q. q.archive_channel_id == channel && q.archive_message_id == message) qs

unfoldable pub movie_of : List Movie → Option MovieQuality → Option Movie
movie_of ms none = none
movie_of ms (some q) = lookup movie_key q.movie_id ms

-- The movie that the query joins to the quality at the message.
unfoldable pub movie_of_quality_at : ℕ → ℕ → Catalog → Option Movie
unfolding movie_of quality_at_message
movie_of_quality_at channel message s =
    movie_of s.movies (quality_at_message channel message s.qualities)

-- The last movie of the channel whose poster is before the message.
unfoldable pub movie_before : ℕ → ℕ → List Movie → Option Movie
movie_before channel message ms =
    select_first (λ m n. leb n.poster_message_id m.poster_message_id)
      (λ m. m.archive_channel_id == channel && ltb m.poster_message_id message) ms

abbrev pub is_of : ℕ → MovieQuality → Bool
is_of movie q = q.movie_id == movie

abbrev pub is_invalid_of : ℕ → MovieQuality → Bool
is_invalid_of movie q = q.movie_id == movie && leb q.parser_confidence 0

unfoldable pub quality_count : ℕ → List MovieQuality → ℕ
quality_count movie qs = count (is_of movie) qs

-- `min` of the numbers of the rows, where there is one.
least_of : {R : Type 0} → (R → Bool) → (R → ℕ) → List R → Option ℕ
least_of p f [] = none
least_of p f (r ∷ rs) =
    let rest = least_of p f rs in if p r then some (min (f r) (or_else rest (f r))) else rest

abbrev pub largest_identifier : ℕ
largest_identifier = 9223372036854775807

-- `func.coalesce(next_poster, 9223372036854775807)`.
pub next_poster : Movie → List Movie → ℕ
unfolding least_of
next_poster movie ms =
    or_else
      (least_of
        (λ m.
          m.archive_channel_id == movie.archive_channel_id
          && ltb movie.poster_message_id m.poster_message_id)
        (λ m. m.poster_message_id) ms)
      largest_identifier

-- A conflicted snapshot from the poster of the movie to the next poster.
abbrev pub is_conflict_of : Movie → List Movie → ArchiveMessageSnapshot → Bool
is_conflict_of movie ms n =
    n.archive_channel_id == movie.archive_channel_id
    && leb movie.poster_message_id n.message_id
    && ltb n.message_id (next_poster movie ms)
    && n.conflicted

-- `func.coalesce(first_conflict, 9223372036854775807)`.
pub first_conflict : Movie → List Movie → List ArchiveMessageSnapshot → ℕ
unfolding least_of next_poster
first_conflict movie ms ns =
    or_else (least_of (is_conflict_of movie ms) (λ n. n.message_id) ns) largest_identifier

unfoldable pub has_conflict : Movie → List Movie → List ArchiveMessageSnapshot → Bool
unfolding next_poster
has_conflict movie ms ns = is_some (scalar (is_conflict_of movie ms) ns)

abbrev within : Option ℕ → ℕ → Bool
within none k = true
within (some through) k = leb k through

message_of : ArchiveMessageSnapshot → ArchiveMessage
message_of n = record {
  message_id = n.message_id;
  media_kind = if n.conflicted then MediaKind.other else n.media_kind;
  caption = n.caption;
  edited_at = n.edited_at;
}

-- The messages of the group of the movie, in the order of their identifiers.
unfoldable pub group_messages :
    Movie → Option ℕ → List Movie → List ArchiveMessageSnapshot → List ArchiveMessage
unfolding message_of next_poster first_conflict
group_messages movie through ms ns =
    let end = min (next_poster movie ms) (first_conflict movie ms ns) in
    map message_of (
      order_by (λ a b. leb a.message_id b.message_id)
        (select_where
          (λ n.
            n.archive_channel_id == movie.archive_channel_id
            && leb movie.poster_message_id n.message_id
            && ltb n.message_id end
            && within through n.message_id)
          ns))
