-- ===== src/Admin/Values.antt =====
-- admin/registry.py: the parsers of settings.
--
-- The functions of Python's standard library that they call are the record `SettingLibrary`; a float is a value
-- of its type `Float`. An error of a parser is `none`.
use cine_gate.Base.{
  ℕ, ◌≡◌, ◌*◌, ◌==◌, leb, Bool, true, false, ◌&&◌, not, String, Option, none, some, List, [], ◌∷◌,
  str_eq, if◌then◌else◌, or_else,
}
use cine_gate.Models.{ℤ, pos, negsuc}

-- `urlsplit` of an address; a part that is not there is empty.
pub record SplitUrl : Type 0 where
  pub scheme : String
  pub hostname : String
  pub username : String
  pub password : String
  pub query : String
  pub fragment : String

pub record SettingLibrary : Type 1 where
  pub Float : Type 0
  pub same_float : Float → Float → Bool
  -- `low / 100 <= x <= high / 100`
  pub is_within : ℕ → ℕ → Float → Bool
  -- `round(x, 4)`
  pub round_float : Float → Float
  pub hundredths : ℕ → Float
  pub strip : String → String
  -- `rstrip("/")`
  pub strip_slashes : String → String
  -- `int(text)` and `float(text)`
  pub read_int : String → Option ℤ
  pub read_float : String → Option Float
  -- `_DURATION_RE.fullmatch`: the amount, and the unit in lower case
  pub match_duration : String → Option (ℕ × Option String)
  -- `_BLOCK_ID_RE.fullmatch`
  pub is_block_id : String → Bool
  pub split_url : String → SplitUrl

-- What the proofs need of the library: rounding keeps a value between bounds of two decimals, and
-- values that are equal are the same.
pub record FloatLaws (L : SettingLibrary) : Type 0 where
  pub round_within :
      (low high : ℕ) (x : L.Float)
      → L.is_within low high x ≡ true
      → L.is_within low high (L.round_float x) ≡ true
  pub same_same : (x y : L.Float) → L.same_float x y ≡ true → x ≡ y

-- `low <= n <= high` for bounds that are not negative.
unfoldable pub int_within : ℕ → ℕ → ℤ → Bool
int_within low high (pos n) = leb low n && leb n high
int_within low high (negsuc n) = false

pub is_negative : ℤ → Bool
is_negative (pos n) = false
is_negative (negsuc n) = true

pub is_zero : ℤ → Bool
is_zero (pos n) = n == 0
is_zero (negsuc n) = false

-- A unit of time in seconds. The Arabic units are written by their code points.
abbrev pub unit_table : List (String × ℕ)
unit_table =
    ("s", 1)
    ∷ ("sec", 1)
    ∷ ("secs", 1)
    ∷ ("second", 1)
    ∷ ("seconds", 1)
    ∷ ("\u{62b}", 1)
    ∷ ("\u{62b}\u{627}\u{646}\u{64a}\u{629}", 1)
    ∷ ("\u{62b}\u{648}\u{627}\u{646}\u{64a}", 1)
    ∷ ("m", 60)
    ∷ ("min", 60)
    ∷ ("mins", 60)
    ∷ ("minute", 60)
    ∷ ("minutes", 60)
    ∷ ("\u{62f}", 60)
    ∷ ("\u{62f}\u{642}\u{64a}\u{642}\u{629}", 60)
    ∷ ("\u{62f}\u{642}\u{627}\u{626}\u{642}", 60)
    ∷ ("h", 3600)
    ∷ ("hr", 3600)
    ∷ ("hrs", 3600)
    ∷ ("hour", 3600)
    ∷ ("hours", 3600)
    ∷ ("\u{633}", 3600)
    ∷ ("\u{633}\u{627}\u{639}\u{629}", 3600)
    ∷ ("\u{633}\u{627}\u{639}\u{627}\u{62a}", 3600)
    ∷ ("d", 86400)
    ∷ ("day", 86400)
    ∷ ("days", 86400)
    ∷ ("\u{64a}\u{648}\u{645}", 86400)
    ∷ ("\u{623}\u{64a}\u{627}\u{645}", 86400)
    ∷ []

pub multiplier : String → List (String × ℕ) → Option ℕ
multiplier unit [] = none
multiplier unit ((name, n) ∷ rest) = if str_eq name unit then some n else multiplier unit rest

-- How a setting is parsed.
pub data Rule : Type 0 where
  int_range float_range duration_range : ℕ → ℕ → Rule
  nonzero archive_channel https_url block_id : Rule

module _ (L : SettingLibrary) where
  -- A value of a setting. `absent` is the default `None`, `other` a JSON value that no rule makes; a
  -- boolean, which Python takes for a number, is never stored.
  pub data Value : Type 0 where
    absent other : Value
    integer : ℤ → Value
    decimal : L.Float → Value
    text : String → Value

  unfoldable pub same_int : ℤ → ℤ → Bool
  same_int (pos m) (pos n) = m == n
  same_int (negsuc m) (negsuc n) = m == n
  same_int _ _ = false

  -- `a == b`; what is neither a number nor a text never equals a parsed value.
  unfoldable pub same_value : Value → Value → Bool
  unfolding same_int
  same_value absent absent = true
  same_value (integer m) (integer n) = same_int m n
  same_value (decimal x) (decimal y) = L.same_float x y
  same_value (text s) (text t) = str_eq s t
  same_value _ _ = false

  abbrev pub bounded_int : ℕ → ℕ → Option ℤ → Option Value
  bounded_int low high none = none
  bounded_int low high (some n) = if int_within low high n then some (integer n) else none

  abbrev pub bounded_float : ℕ → ℕ → Option L.Float → Option Value
  bounded_float low high none = none
  bounded_float low high (some x) =
      if L.is_within low high x then some (decimal (L.round_float x)) else none

  abbrev pub in_seconds : ℕ → ℕ → ℕ → Option ℕ → Option Value
  in_seconds low high amount none = none
  in_seconds low high amount (some k) =
      if leb low (amount * k) && leb (amount * k) high
      then some (integer (pos (amount * k)))
      else none

  abbrev pub bounded_duration : ℕ → ℕ → Option (ℕ × Option String) → Option Value
  bounded_duration low high none = none
  bounded_duration low high (some (amount, unit)) =
      in_seconds low high amount (multiplier (or_else unit "s") unit_table)

  abbrev pub nonzero_int : Option ℤ → Option ℤ
  nonzero_int none = none
  nonzero_int (some n) = if is_zero n then none else some n

  abbrev pub negative_int : Option ℤ → Option Value
  negative_int none = none
  negative_int (some n) = if is_negative n then some (integer n) else none

  abbrev pub as_integer : Option ℤ → Option Value
  as_integer none = none
  as_integer (some n) = some (integer n)

  abbrev pub is_base_url : SplitUrl → Bool
  is_base_url u =
      str_eq u.scheme "https"
      && not (str_eq u.hostname "")
      && str_eq u.username ""
      && str_eq u.password ""
      && str_eq u.query ""
      && str_eq u.fragment ""

  unfoldable pub parse_setting : Rule → String → Option Value
  unfolding int_within is_negative is_zero multiplier
  parse_setting (int_range low high) raw = bounded_int low high (L.read_int (L.strip raw))
  parse_setting (float_range low high) raw = bounded_float low high (L.read_float (L.strip raw))
  parse_setting (duration_range low high) raw = bounded_duration low high (L.match_duration raw)
  parse_setting nonzero raw = as_integer (nonzero_int (L.read_int (L.strip raw)))
  parse_setting archive_channel raw = negative_int (nonzero_int (L.read_int (L.strip raw)))
  parse_setting https_url raw =
      let url = L.strip_slashes (L.strip raw) in
      if is_base_url (L.split_url url) then some (text url) else none
  parse_setting block_id raw =
      let id = L.strip raw in if L.is_block_id id then some (text id) else none
