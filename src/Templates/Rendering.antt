-- ===== src/Templates/Rendering.antt =====
-- presentation/templates.py: `render_template`, `validate_template_source` and the offsets of the
-- formatting. Lengths and offsets count UTF-16 units.
use Prim.Native.Char.{code}
use Prim.Native.String.{String, ◌++◌ as concat}
use cine_gate.Base.{
  ℕ, ◌+◌, ◌-◌, ◌==◌, leb, ltb, Bool, true, false, ◌&&◌, ◌||◌, not, Option, none, some, List, [],
  ◌∷◌, str_eq, if◌then◌else◌, is_some, or_else, Result, ok, err,
}
use cine_gate.Models.{ℤ, pos}

-- A match of `_VARIABLE_RE` in a body: the body before it, the body until its end, the text between
-- the match before it and it, and the match.
pub record Match : Type 0 where
  pub before : String
  pub until : String
  pub gap : String
  pub variable : String

-- An entity of a stored template: its offset and length, if they are numbers, and the rest of it.
pub record StoredEntity : Type 0 where
  pub position : Option (ℤ × ℤ)
  pub kind : String

pub record MessageEntity : Type 0 where
  pub offset : ℕ
  pub length : ℕ
  pub kind : String

pub record VariableLibrary : Type 0 where
  -- `_VARIABLE_RE.finditer`: the matches, and the body after the last one
  pub find_variables : String → List Match × String
  -- `MessageEntity.model_validate` accepts every one of them
  pub accepts : List MessageEntity → Bool

pub record RenderedTemplate : Type 0 where
  pub text : String
  pub entities : List MessageEntity

pub data TemplateError : Type 0 where
  empty_body invalid_max_length unsupported_variables missing_replacements too_long invalid_entity
        entity_outside splits_variable refused_entities :
      TemplateError

-- Start and end of a variable, the length of its replacement, and its own.
pub record Span : Type 0 where
  pub start : ℕ
  pub end : ℕ
  pub replacement : ℕ
  pub original : ℕ

abbrev pub units : ℕ → ℕ
units c = if ltb c 65536 then 1 else 2

-- `_utf16_len`.
unfoldable pub utf16_len : String → ℕ
utf16_len String.[] = 0
utf16_len (String.◌∷◌ c t) = units (code c) + utf16_len t

unfoldable pub is_allowed : String → List String → Bool
is_allowed v [] = false
is_allowed v (a ∷ rest) = str_eq a v || is_allowed v rest

-- No variable is unknown.
unfoldable pub all_allowed : List String → List Match → Bool
all_allowed allowed [] = true
all_allowed allowed (m ∷ ms) = is_allowed m.variable allowed && all_allowed allowed ms

unfoldable pub replacement_of : String → List (String × String) → Option String
replacement_of v [] = none
replacement_of v ((k, r) ∷ rest) = if str_eq k v then some r else replacement_of v rest

unfoldable pub all_replaced : List (String × String) → List Match → Bool
all_replaced rs [] = true
all_replaced rs (m ∷ ms) = is_some (replacement_of m.variable rs) && all_replaced rs ms

-- The text of a variable; there is one once none is missing.
abbrev pub text_for : List (String × String) → Match → String
text_for rs m = or_else (replacement_of m.variable rs) ""

unfoldable pub join_pieces : List (String × String) → List Match → String → String
join_pieces rs [] tail = tail
join_pieces rs (m ∷ ms) tail = concat m.gap (concat (text_for rs m) (join_pieces rs ms tail))

abbrev pub span_of : ℕ → Match → Span
span_of replacement m = record {
  start = utf16_len m.before;
  end = utf16_len m.until;
  replacement = replacement;
  original = utf16_len m.until - utf16_len m.before;
}

unfoldable pub render_spans : List (String × String) → List Match → List Span
render_spans rs [] = []
render_spans rs (m ∷ ms) = span_of (utf16_len (text_for rs m)) m ∷ render_spans rs ms

-- The spans of `validate_template_source`: a variable stands for itself.
unfoldable pub source_spans : List Match → List Span
source_spans [] = []
source_spans (m ∷ ms) =
    record {
      start = utf16_len m.before;
      end = utf16_len m.until;
      replacement = utf16_len m.variable;
      original = utf16_len m.variable;
    }
    ∷ source_spans ms

abbrev pub strictly_in : ℕ → Span → Bool
strictly_in k p = ltb p.start k && ltb k p.end

-- A position after the change of a span before it, which is part of what lies before the position.
abbrev pub shifted : Span → ℕ → ℕ
shifted p k = k + p.replacement - p.original

-- The loop over the spans, for an entity from `start` to `end`: its new start and end.
unfoldable pub remap : ℕ → ℕ → List Span → ℕ → ℕ → Result TemplateError (ℕ × ℕ)
remap start end [] new_start new_end = ok (new_start, new_end)
remap start end (p ∷ ps) new_start new_end =
    if strictly_in start p || strictly_in end p
    then err splits_variable
    else if leb p.end start
    then remap start end ps (shifted p new_start) (shifted p new_end)
    else if leb start p.start && leb p.end end
    then remap start end ps new_start (shifted p new_end)
    else remap start end ps new_start new_end

abbrev pub moved : String → Result TemplateError (ℕ × ℕ) → Result TemplateError MessageEntity
moved kind (ok (s, e)) = ok (record { offset = s; length = e - s; kind = kind })
moved kind (err x) = err x

abbrev pub remap_at : ℕ → List Span → String → ℤ → ℤ → Result TemplateError MessageEntity
remap_at total spans kind (pos start) (pos length) =
    if length == 0 || ltb total (start + length)
    then err entity_outside
    else moved kind (remap start (start + length) spans start (start + length))
remap_at total spans kind _ _ = err entity_outside

unfoldable pub remap_entity : ℕ → List Span → StoredEntity → Result TemplateError MessageEntity
remap_entity total spans e = elim e.position [
  | none ↦ err invalid_entity
  | some (start, length) ↦ remap_at total spans e.kind start length
]

abbrev pub and_then :
    Result TemplateError MessageEntity
    → Result TemplateError (List MessageEntity)
    → Result TemplateError (List MessageEntity)
and_then (err x) rest = err x
and_then (ok e) (err x) = err x
and_then (ok e) (ok es) = ok (e ∷ es)

-- `_remap_entities`.
unfoldable pub remap_entities :
    ℕ → List Span → List StoredEntity → Result TemplateError (List MessageEntity)
remap_entities total spans [] = ok []
remap_entities total spans (e ∷ es) =
    and_then (remap_entity total spans e) (remap_entities total spans es)

abbrev pub with_text :
    VariableLibrary
    → String
    → Result TemplateError (List MessageEntity)
    → Result TemplateError RenderedTemplate
with_text L text (ok es) =
    if L.accepts es then ok (record { text = text; entities = es }) else err refused_entities
with_text L text (err x) = err x

abbrev is_blank : String → Bool
is_blank t = str_eq t ""

module _ (L : VariableLibrary) where
  unfoldable pub render_template :
      String
      → List StoredEntity
      → List String
      → List (String × String)
      → ℕ
      → Result TemplateError RenderedTemplate
  render_template body entities allowed rs max_length =
      let found = L.find_variables body in
      let text = join_pieces rs found.0 found.1 in
      if is_blank body
      then err empty_body
      else if max_length == 0
      then err invalid_max_length
      else if not (all_allowed allowed found.0)
      then err unsupported_variables
      else if not (all_replaced rs found.0)
      then err missing_replacements
      else if ltb max_length (utf16_len text)
      then err too_long
      else with_text L text (remap_entities (utf16_len body) (render_spans rs found.0) entities)

  abbrev pub checked : Result TemplateError (List MessageEntity) → Option TemplateError
  checked (ok es) = none
  checked (err x) = some x

  -- The error of `validate_template_source`, if it raises one.
  unfoldable pub validate_template_source :
      String → List StoredEntity → List String → ℕ → Option TemplateError
  validate_template_source body entities allowed max_length =
      let found = L.find_variables body in
      if is_blank body
      then some empty_body
      else if ltb max_length (utf16_len body)
      then some too_long
      else if not (all_allowed allowed found.0)
      then some unsupported_variables
      else checked (remap_entities (utf16_len body) (source_spans found.0) entities)
