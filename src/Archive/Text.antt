-- ===== src/Archive/Text.antt =====
-- services/text.py. The regular expressions of the file and the text operations of Python's library
-- are the record `TextLibrary`, which every function takes.
use Prim.Native.String.{String, ◌++◌ as concat}
use cine_gate.Base.{ℕ, Bool, false, ◌||◌, Option, none, some, List, [], ◌∷◌, str_eq, if◌then◌else◌}

-- A match: the text before it, the text after it, and the number of its first group.
pub record YearMatch : Type 0 where
  pub before : String
  pub after : String
  pub year : ℕ

pub record TextLibrary : Type 0 where
  -- `_YEAR_RE.finditer`
  pub find_years : String → List YearMatch
  -- `_QUALITY_RE.search`, the first group
  pub search_quality : String → Option String
  -- `re.sub(" ", text)` of the expressions
  pub sub_qualities : String → String
  pub sub_usernames : String → String
  pub sub_punctuation : String → String
  pub sub_spaces : String → String
  -- `_WORD_RE.search`
  pub has_word : String → Bool
  -- `_FIELD_RE.match`, its two groups
  pub match_field : String → Option (String × String)
  pub strip : String → String
  -- `strip` of the characters " -–—:："
  pub strip_dashes : String → String
  -- `lstrip` of the characters "#-*•–— "
  pub strip_marks : String → String
  pub lower : String → String
  pub casefold : String → String
  pub nfkc : String → String
  -- `replace("&", " and ").replace("_", " ")`
  pub replace_signs : String → String
  pub split_words : String → List String
  pub join_words : List String → String
  pub split_lines : String → List String
  -- `a in b`
  pub is_in : String → String → Bool
  -- `SequenceMatcher(None, a, b, autojunk=False).ratio()`, in hundredths rounded down
  pub ratio : String → String → ℕ

-- `not text`.
abbrev pub is_empty : String → Bool
is_empty t = str_eq t ""

abbrev pub last_match : List YearMatch → Option YearMatch
last_match [] = none
last_match (m ∷ []) = some m
last_match (m ∷ n ∷ ms) = last_match (n ∷ ms)

abbrev first_year : List YearMatch → Option ℕ
first_year [] = none
first_year (m ∷ ms) = some m.year

-- Membership in a set of texts.
unfoldable pub is_among : String → List String → Bool
is_among t [] = false
is_among t (u ∷ us) = str_eq u t || is_among t us

abbrev noise_words : List String
noise_words =
    "film" ∷ "movie" ∷ "quality" ∷ "\u{641}\u{64a}\u{644}\u{645}" ∷ "\u{641}\u{644}\u{645}"
    ∷ "\u{627}\u{644}\u{641}\u{64a}\u{644}\u{645}" ∷ "\u{627}\u{644}\u{641}\u{644}\u{645}"
    ∷ "\u{627}\u{644}\u{62c}\u{648}\u{62f}\u{629}" ∷ []

-- The tokens that are neither empty nor noise.
pub keep_tokens : List String → List String
unfolding is_among
keep_tokens [] = []
keep_tokens (t ∷ ts) =
    let rest = keep_tokens ts in if is_empty t || is_among t noise_words then rest else t ∷ rest

module _ (L : TextLibrary) where
  unfoldable pub extract_year : Option String → Option ℕ
  extract_year none = none
  extract_year (some t) = if is_empty t then none else first_year (L.find_years t)

  -- The text without the match.
  abbrev without : YearMatch → String
  without m = concat m.before (concat " " m.after)

  pub release_year : Option YearMatch → Option ℕ
  release_year none = none
  release_year (some m) =
      if L.has_word (L.sub_punctuation (L.sub_usernames (L.sub_qualities (without m))))
      then some m.year
      else none

  unfoldable pub extract_release_year : Option String → Option ℕ
  unfolding release_year
  extract_release_year none = none
  extract_release_year (some t) =
      if is_empty t then none else release_year (last_match (L.find_years t))

  abbrev lowered : Option String → Option String
  lowered none = none
  lowered (some q) = some (L.lower q)

  unfoldable pub extract_quality : Option String → Option String
  extract_quality none = none
  extract_quality (some t) = if is_empty t then none else lowered (L.search_quality t)

  abbrev pub collapse_spaces : String → String
  collapse_spaces t = L.strip (L.sub_spaces t)

  pub strip_match : String → Option YearMatch → String
  strip_match t none = collapse_spaces t
  strip_match t (some m) =
      if L.has_word (L.sub_punctuation (without m))
      then collapse_spaces (without m)
      else collapse_spaces t

  unfoldable pub strip_year : String → String
  unfolding strip_match
  strip_year t = strip_match t (last_match (L.find_years t))

  unfoldable pub remove_quality_token : String → String
  remove_quality_token t = L.strip (collapse_spaces (L.sub_qualities t))

  unfoldable pub normalize_title : Option String → String
  unfolding strip_year keep_tokens
  normalize_title none = ""
  normalize_title (some t) =
      if is_empty t
      then ""
      else let value = L.replace_signs (L.sub_usernames (L.casefold (L.nfkc t))) in
        let cleaned = L.sub_punctuation (strip_year (L.sub_qualities value)) in
        L.join_words (keep_tokens (L.split_words (collapse_spaces cleaned)))

  unfoldable pub clean_display_title : String → String
  unfolding strip_year
  clean_display_title t =
      L.strip_dashes (collapse_spaces (strip_year (L.sub_qualities (L.sub_usernames (L.nfkc t)))))

  unfoldable pub strip_bot_usernames : String → String
  strip_bot_usernames t = L.sub_usernames t
