-- ===== src/Archive/Parser.antt =====
-- services/archive_parser.py: `ArchiveParser`, which groups the messages of the archive channel.
pub mod Labels
pub mod Groups
pub mod Order
pub mod Posters
use cine_gate.Base.{
  ℕ, ◌≡◌, arith, zero, suc, ◌+◌, ◌==◌, leb, ltb, Bool, true, false, ◌&&◌, ◌||◌, String, Option,
  none, some, List, [], ◌∷◌, ◌++◌, length, str_eq, if◌then◌else◌, or_else, Result, ok, err,
  order_by,
}
use cine_gate.Archive.Text.{TextLibrary}
use cine_gate.Archive.Messages.{
  ArchiveMessage, GroupStatus, ParsedQuality, Diagnostic, ParsedMovieGroup,
}
use cine_gate.Archive.Posters.{
  PosterCandidate, QualityCandidate, detect_poster, detect_quality, score_quality,
}

-- `qualities` is the dictionary, by the labels of its values.
pub record GroupBuilder : Type 0 where
  pub poster : PosterCandidate
  pub qualities : List ParsedQuality
  pub diagnostics : List Diagnostic
  pub ambiguous_candidates : ℕ
  pub messages_since_poster : ℕ
  pub noise_messages : ℕ

-- The two variables of the loop.
pub record Scan : Type 0 where
  pub current : Option GroupBuilder
  pub previous_message_id : ℕ

pub data ParserError : Type 0 where
  unordered_messages invalid_diagnostic_limit : ParserError

abbrev pub Groups : Type 0
Groups = Result ParserError (List ParsedMovieGroup)

pub new_builder : PosterCandidate → GroupBuilder
new_builder p = record {
  poster = p;
  qualities = [];
  diagnostics = [];
  ambiguous_candidates = 0;
  messages_since_poster = 0;
  noise_messages = 0;
}

-- The dictionary at a label.
pub quality_at : String → List ParsedQuality → Option ParsedQuality
quality_at l [] = none
quality_at l (q ∷ qs) = if str_eq q.quality l then some q else quality_at l qs

-- The dictionary with the quality under its label.
pub set_quality : ParsedQuality → List ParsedQuality → List ParsedQuality
set_quality q [] = q ∷ []
set_quality q (r ∷ rs) = if str_eq r.quality q.quality then q ∷ rs else r ∷ set_quality q rs

drop_first : List Diagnostic → List Diagnostic
drop_first [] = []
drop_first (d ∷ ds) = ds

-- `append` of a `deque` with that `maxlen`.
pub note : Option ℕ → Diagnostic → List Diagnostic → List Diagnostic
unfolding drop_first
note none d ds = ds ++ d ∷ []
note (some limit) d ds =
    if ltb limit (length ds + 1) then drop_first (ds ++ d ∷ []) else ds ++ d ∷ []

pub quality_sort_key : String → ℕ
quality_sort_key q =
    if str_eq q "480p"
    then 480
    else if str_eq q "720p"
    then 720
    else if str_eq q "1080p"
    then 1080
    else if str_eq q "2160p"
    then 2160
    else if str_eq q "4k"
    then 2161
    else 9999

pub by_quality : ParsedQuality → ParsedQuality → Bool
unfolding quality_sort_key
by_quality q r =
    let a = quality_sort_key q.quality in
    let b = quality_sort_key r.quality in ltb a b || a == b && leb q.message_id r.message_id

pub group_status : List ParsedQuality → ℕ → GroupStatus
group_status [] zero = GroupStatus.orphan
group_status [] (suc n) = GroupStatus.ambiguous
group_status (q ∷ qs) n = GroupStatus.indexed

pub finalize_group : GroupBuilder → ParsedMovieGroup
unfolding group_status by_quality
finalize_group b =
    let qualities = order_by by_quality b.qualities in
    record {
      poster_message_id = b.poster.message.message_id;
      raw_poster_caption = or_else b.poster.message.caption "";
      raw_title = b.poster.raw_title;
      display_title = b.poster.display_title;
      normalized_title = b.poster.normalized_title;
      year = b.poster.year;
      parser_style = b.poster.style;
      status = group_status qualities b.ambiguous_candidates;
      poster_confidence = b.poster.confidence;
      qualities = qualities;
      diagnostics = b.diagnostics;
    }

abbrev pub closed : Option GroupBuilder → List ParsedMovieGroup
closed none = []
closed (some b) = finalize_group b ∷ []

abbrev pub emit : List ParsedMovieGroup → Groups → Groups
emit gs (ok hs) = ok (gs ++ hs)
emit gs (err e) = err e

abbrev pub with_limit : Option ℕ → Groups → Groups
with_limit (some zero) gs = err ParserError.invalid_diagnostic_limit
with_limit _ gs = gs

abbrev pub opening : Scan
opening = record { current = none; previous_message_id = 0 }

-- Arguments of the iterator: its limits.
module _ (L : TextLibrary) (max_noise_messages : ℕ) (limit : Option ℕ) where
  pub parsed_quality : QualityCandidate → ℕ → ParsedQuality
  parsed_quality q score = record {
    message_id = q.message.message_id;
    quality = q.quality;
    raw_caption = or_else q.message.caption "";
    raw_title = q.raw_title;
    normalized_title = q.normalized_title;
    year = q.year;
    confidence = score;
  }

  -- The branch of a score that is accepted, given the quality under the same label.
  pub accept_quality : GroupBuilder → ParsedQuality → Option ParsedQuality → GroupBuilder
  unfolding set_quality note
  accept_quality b p none = record b { qualities = set_quality p b.qualities; noise_messages = 0 }
  accept_quality b p (some old) =
      if ltb old.message_id p.message_id
      then record b {
        diagnostics =
            note limit (Diagnostic.duplicate_quality_replaced p.quality old.message_id p.message_id)
              b.diagnostics;
        qualities = set_quality p b.qualities;
        noise_messages = 0;
      }
      else record b {
        diagnostics =
            note limit (Diagnostic.duplicate_quality_ignored p.quality p.message_id) b.diagnostics;
        noise_messages = 0;
      }

  pub add_scored : GroupBuilder → QualityCandidate → ℕ → GroupBuilder
  unfolding accept_quality quality_at parsed_quality
  add_scored b q score =
      if leb 60 score
      then accept_quality b (parsed_quality q score) (quality_at q.quality b.qualities)
      else if leb 40 score
      then record b {
        ambiguous_candidates = b.ambiguous_candidates + 1;
        diagnostics =
            note limit (Diagnostic.ambiguous_quality q.message.message_id score) b.diagnostics;
      }
      else record b {
        diagnostics =
            note limit (Diagnostic.rejected_quality q.message.message_id score) b.diagnostics;
      }

  -- A message with a quality.
  pub add_quality : GroupBuilder → QualityCandidate → GroupBuilder
  unfolding add_scored
  add_quality b q =
      let distance = b.messages_since_poster + 1 in
      add_scored (record b { messages_since_poster = distance }) q
        (score_quality L b.poster q distance)

  pub add_noise : GroupBuilder → GroupBuilder
  add_noise b = record b {
    messages_since_poster = b.messages_since_poster + 1;
    noise_messages = b.noise_messages + 1;
  }

  -- The groups that the message closes, and the group that is open after it.
  pub absorb :
      Option PosterCandidate
      → Option QualityCandidate
      → Option GroupBuilder
      → List ParsedMovieGroup × Option GroupBuilder
  unfolding new_builder add_quality add_noise finalize_group
  absorb (some p) quality current = (closed current, some (new_builder p))
  absorb none quality none = ([], none)
  absorb none (some q) (some b) = ([], some (add_quality b q))
  absorb none none (some b) =
      let c = add_noise b in
      if ltb max_noise_messages c.noise_messages then (closed (some c), none) else ([], some c)

  pub scan_message : ArchiveMessage → Scan → Result ParserError (List ParsedMovieGroup × Scan)
  unfolding absorb
  scan_message m s =
      if leb m.message_id s.previous_message_id
      then err ParserError.unordered_messages
      else let after = absorb (detect_poster L m) (detect_quality L m) s.current in
        ok (after.0, record { current = after.1; previous_message_id = m.message_id })

  -- Every group of the messages that are left.
  pub collect : List ArchiveMessage → Scan → Groups
  unfolding scan_message
  collect [] s = ok (closed s.current)
  collect (m ∷ ms) s = elim (scan_message m s) [
    | ok (gs, t) ↦ emit gs (collect ms t)
    | err e ↦ err e
  ]

  -- The iterator, stopped at the first group it yields.
  pub collect_first : List ArchiveMessage → Scan → Groups
  unfolding scan_message
  collect_first [] s = ok (closed s.current)
  collect_first (m ∷ ms) s = elim (scan_message m s) [
    | ok ([], t) ↦ collect_first ms t
    | ok (g ∷ gs, t) ↦ ok (g ∷ [])
    | err e ↦ err e
  ]

  -- The state after a message whose identifier is larger than the last one.
  abbrev pub next_scan : ArchiveMessage → Scan → Scan
  next_scan m s = record {
    current = (absorb (detect_poster L m) (detect_quality L m) s.current).1;
    previous_message_id = m.message_id;
  }

  abbrev pub closed_by : ArchiveMessage → Scan → List ParsedMovieGroup
  closed_by m s = (absorb (detect_poster L m) (detect_quality L m) s.current).0

  pub collect-refused :
      (m : ArchiveMessage) (ms : List ArchiveMessage) (s : Scan)
      → leb m.message_id s.previous_message_id ≡ true
      → collect (m ∷ ms) s ≡ err ParserError.unordered_messages
  unfolding collect scan_message
  collect-refused m ms s e = ground arith

  pub collect-ordered :
      (m : ArchiveMessage) (ms : List ArchiveMessage) (s : Scan)
      → leb m.message_id s.previous_message_id ≡ false
      → collect (m ∷ ms) s ≡ emit (closed_by m s) (collect ms (next_scan m s))
  unfolding collect scan_message
  collect-ordered m ms s e = ground arith

  -- `tuple(iter_groups(messages, diagnostic_limit))`.
  unfoldable pub iter_groups : List ArchiveMessage → Groups
  unfolding collect
  iter_groups ms = with_limit limit (collect ms opening)

  -- `next(iter_groups(messages, diagnostic_limit), None)`, as a list of at most one group.
  unfoldable pub first_group : List ArchiveMessage → Groups
  unfolding collect_first
  first_group ms = with_limit limit (collect_first ms opening)

-- `ArchiveParser(max_noise_messages).parse(messages)`.
unfoldable pub parse : TextLibrary → ℕ → List ArchiveMessage → Groups
unfolding iter_groups
parse L n ms = iter_groups L n none ms
