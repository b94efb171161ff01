-- ===== src/Archive/Posters.antt =====
-- services/archive_parser.py: the detection of posters and qualities, and the score of a quality.
pub mod Candidates
use cine_gate.Base.{
  ℕ, ◌≡◌, ◌≤◌, arith, ◌+◌, ◌-◌, ◌*◌, ◌==◌, leb, ltb, min, Bool, false, ◌&&◌, ◌||◌, not, String,
  Option, none, some, List, [], ◌∷◌, str_eq, if◌then◌else◌, truncate, is_some, or_else,
}
use text.Mathlib.Text.{starts_with}
use cine_gate.Models.{ParserStyle}
use cine_gate.Archive.Text.{
  TextLibrary, is_empty, is_among, extract_year, extract_release_year, extract_quality, strip_year,
  remove_quality_token, normalize_title, clean_display_title, strip_bot_usernames,
}
use cine_gate.Archive.Messages.{ArchiveMessage, is_photo, is_media}

pub record PosterCandidate : Type 0 where
  pub message : ArchiveMessage
  pub raw_title : String
  pub display_title : String
  pub normalized_title : String
  pub year : Option ℕ
  pub style : ParserStyle
  pub confidence : ℕ

pub record QualityCandidate : Type 0 where
  pub message : ArchiveMessage
  pub quality : String
  pub raw_title : Option String
  pub normalized_title : Option String
  pub year : Option ℕ

abbrev pub Fields : Type 0
Fields = List (String × String)

abbrev follower_tag : String
follower_tag =
    "#\u{637}\u{644}\u{628}_\u{627}\u{644}\u{645}\u{62a}\u{627}\u{628}\u{639}\u{64a}\u{646}"

abbrev title_labels : List String
title_labels =
    "\u{627}\u{644}\u{641}\u{64a}\u{644}\u{645}" ∷ "\u{641}\u{64a}\u{644}\u{645}"
    ∷ "\u{641}\u{644}\u{645}" ∷ "\u{627}\u{644}\u{641}\u{644}\u{645}" ∷ []

abbrev legacy_only_title_labels : List String
legacy_only_title_labels =
    "\u{641}\u{64a}\u{644}\u{645}" ∷ "\u{641}\u{644}\u{645}" ∷ "\u{627}\u{644}\u{641}\u{644}\u{645}"
    ∷ []

abbrev modern_signature_fields : List String
modern_signature_fields =
    "\u{627}\u{644}\u{62a}\u{635}\u{646}\u{64a}\u{641}" ∷ "\u{627}\u{644}\u{633}\u{646}\u{629}"
    ∷ "\u{627}\u{644}\u{62a}\u{642}\u{64a}\u{64a}\u{645}" ∷ []

abbrev supporting_poster_fields : List String
supporting_poster_fields =
    "\u{627}\u{644}\u{62a}\u{635}\u{646}\u{64a}\u{641}" ∷ "\u{627}\u{644}\u{646}\u{648}\u{639}"
    ∷ "\u{627}\u{644}\u{628}\u{644}\u{62f}" ∷ "\u{627}\u{644}\u{644}\u{63a}\u{629}"
    ∷ "\u{627}\u{644}\u{62a}\u{631}\u{62c}\u{645}\u{629}" ∷ "\u{627}\u{644}\u{633}\u{646}\u{629}"
    ∷ "\u{627}\u{644}\u{62a}\u{642}\u{64a}\u{64a}\u{645}" ∷ "\u{627}\u{644}\u{642}\u{635}\u{629}"
    ∷ []

-- `caption or ""`.
abbrev pub text_of : Option String → String
text_of c = or_else c ""

unfoldable pub bounded_caption : Option String → String
bounded_caption none = ""
bounded_caption (some t) = truncate 8192 t

pub field : String → Fields → Option String
field k [] = none
field k ((label, value) ∷ fs) = if str_eq label k then some value else field k fs

-- The first entry under one of the labels.
pub entry_among : List String → Fields → Option (String × String)
unfolding is_among
entry_among labels [] = none
entry_among labels ((label, value) ∷ fs) =
    if is_among label labels then some (label, value) else entry_among labels fs

pub count_among : List String → Fields → ℕ
unfolding is_among
count_among labels [] = 0
count_among labels ((label, value) ∷ fs) =
    (if is_among label labels then 1 else 0) + count_among labels fs

abbrev value_of : Option (String × String) → Option String
value_of none = none
value_of (some (label, value)) = some value

append_field : String → String → Fields → Fields
append_field l v [] = (l, v) ∷ []
append_field l v (f ∷ fs) = f ∷ append_field l v fs

module _ (L : TextLibrary) where
  abbrev normalize_label : String → String
  normalize_label t = L.casefold (L.strip_marks (L.strip t))

  -- A line that has a field, at the end of the fields found before it.
  pub add_field : Option (String × String) → Fields → Fields
  unfolding append_field field
  add_field none fs = fs
  add_field (some (raw_label, raw_value)) fs =
      let label = normalize_label raw_label in
      let value = L.strip raw_value in
      if is_empty label || is_empty value || is_some (field label fs)
      then fs
      else append_field label value fs

  fields_of : List String → Fields → Fields
  unfolding add_field
  fields_of [] fs = fs
  fields_of (line ∷ lines) fs = fields_of lines (add_field (L.match_field line) fs)

  unfoldable pub extract_fields : String → Fields
  unfolding fields_of
  extract_fields caption = fields_of (L.split_lines caption) []

  -- `first or second`: a year that is 0 counts as none.
  abbrev either : Option ℕ → Option ℕ → Option ℕ
  either none y = y
  either (some x) y = if x == 0 then y else some x

  named_poster : ArchiveMessage → Fields → String → ParserStyle → ℕ → Option PosterCandidate
  unfolding field
  named_poster m fields raw_title style confidence =
      let display = clean_display_title L raw_title in
      let normalized = normalize_title L (some raw_title) in
      if is_empty display || is_empty normalized
      then none
      else some (record {
        message = m;
        raw_title = L.strip raw_title;
        display_title = display;
        normalized_title = normalized;
        year =
            either (extract_year L (field "\u{627}\u{644}\u{633}\u{646}\u{629}" fields))
              (extract_year L (some raw_title));
        style = style;
        confidence = confidence;
      })

  titled_poster :
      ArchiveMessage → String → Fields → Option (String × String) → Option PosterCandidate
  unfolding named_poster count_among is_among
  titled_poster m caption fields none = none
  titled_poster m caption fields (some (label, raw_title)) =
      let supporting = count_among supporting_poster_fields fields in
      let tagged = L.is_in follower_tag caption in
      let is_legacy =
        tagged
        || is_among label legacy_only_title_labels
        || str_eq label "\u{627}\u{644}\u{641}\u{64a}\u{644}\u{645}"
          && count_among modern_signature_fields fields == 0 in
      if is_legacy
      then if supporting == 0 && not tagged
        then none
        else named_poster m fields raw_title ParserStyle.legacy (if tagged then 88 else 82)
      else if supporting == 0
      then none
      else named_poster m fields raw_title ParserStyle.modern (min 99 (88 + min supporting 5 * 2))

  unfoldable pub detect_poster : ArchiveMessage → Option PosterCandidate
  unfolding titled_poster entry_among
  detect_poster m =
      let caption = bounded_caption m.caption in
      let fields = extract_fields caption in
      if not (is_photo m.media_kind) || is_empty caption
      then none
      else titled_poster m caption fields (entry_among title_labels fields)

  -- A line that is a field names a title only under the labels of titles.
  is_skipped_field : Option (String × String) → Bool
  unfolding is_among
  is_skipped_field none = false
  is_skipped_field (some (label, value)) = not (is_among (normalize_label label) title_labels)

  freeform_title : List String → Option String
  unfolding is_skipped_field
  freeform_title [] = none
  freeform_title (raw_line ∷ lines) =
      let line = L.strip raw_line in
      let rest = freeform_title lines in
      let named = strip_bot_usernames L (remove_quality_token L line) in
      let candidate = L.join_words (L.split_words (L.strip_dashes (strip_year L named))) in
      if is_empty line || is_skipped_field (L.match_field line)
      then rest
      else if is_empty candidate || starts_with candidate "#"
      then rest
      else some candidate

  unfoldable pub extract_freeform_quality_title : String → Option String
  unfolding freeform_title
  extract_freeform_quality_title caption = freeform_title (L.split_lines caption)

  -- `normalize_title(raw_title) if raw_title else None`, and `normalized or None`.
  abbrev normalized_of : Option String → Option String
  normalized_of none = none
  normalized_of (some t) = let n = normalize_title L (some t) in if is_empty n then none else some n

  raw_title_of : String → Option String → Option String
  raw_title_of caption none = extract_freeform_quality_title caption
  raw_title_of caption (some t) = some t

  release_year_of : String → Option String → Option ℕ
  release_year_of caption none = extract_release_year L (some caption)
  release_year_of caption (some t) = extract_release_year L (some t)

  quality_of : ArchiveMessage → String → Option String → Option QualityCandidate
  unfolding entry_among raw_title_of release_year_of
  quality_of m caption none = none
  quality_of m caption (some q) =
      let labeled = value_of (entry_among title_labels (extract_fields caption)) in
      let raw_title = raw_title_of caption labeled in
      some (record {
        message = m;
        quality = q;
        raw_title = raw_title;
        normalized_title = normalized_of raw_title;
        year = release_year_of caption labeled;
      })

  unfoldable pub detect_quality : ArchiveMessage → Option QualityCandidate
  unfolding quality_of
  detect_quality m =
      let caption = bounded_caption m.caption in
      if not (is_media m.media_kind) || is_empty caption
      then none
      else quality_of m caption (extract_quality L (some caption))

  -- The change of the score by the years, on a score that is at least 35.
  pub score_years : Option ℕ → Option ℕ → ℕ → ℕ
  score_years (some a) (some b) score = if a == b then score + 10 else score - 35
  score_years _ _ score = score

  bonus : ℕ → ℕ
  bonus r = if leb 90 r then 10 else if leb 70 r then 6 else if leb 50 r then 3 else 0

  -- A normalized title of a quality is not empty.
  pub score_titles : String → Option String → ℕ → ℕ
  unfolding bonus
  score_titles p none score = score
  score_titles p (some q) score = if is_empty p then score else score + bonus (L.ratio p q)

  -- `_score_quality`.
  unfoldable pub score_quality : PosterCandidate → QualityCandidate → ℕ → ℕ
  unfolding score_years score_titles
  score_quality p q distance =
      let base = if ltb 1 distance then 80 - min ((distance - 1) * 5) 20 else 80 in
      min 100 (score_titles p.normalized_title q.normalized_title (score_years p.year q.year base))
