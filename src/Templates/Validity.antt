-- ===== src/Templates/Validity.antt =====
-- presentation/templates.py: what `validate_template_source` accepts, `render_template` renders.
use Prim.Native.String.{String}
use mathlib.Core.Path.{sym}
use cine_gate.Base.{
  ◌∙◌, ℕ, ◌+◌, ◌≡◌, ◌≤◌, ◌<◌, ◌==◌, leb, ltb, inl, inr, refl, arith, Bool, true, false, ◌&&◌, ◌||◌,
  not, Option, none, some, List, [], ◌∷◌, str_eq, if◌then◌else◌, Bool-cases, Option-cases, Result,
  ok, err,
}
use cine_gate.Models.{ℤ, pos, negsuc}
use cine_gate.Templates.Rendering.{
  Match, VariableLibrary, StoredEntity, MessageEntity, RenderedTemplate, TemplateError, Span,
  utf16_len, text_for, join_pieces, span_of, render_spans, source_spans, strictly_in, remap, moved,
  remap_at, remap_entity, and_then, remap_entities, with_text, all_allowed, all_replaced, checked,
  render_template, validate_template_source,
}

abbrev succeeds : {A : Type 0} → Result TemplateError A → Bool
succeeds (ok a) = true
succeeds (err x) = false

-- The tests of the loop do not look at the replacements.
remap-succeeds :
    (start end : ℕ) (rs : List (String × String)) (ms : List Match) (a b c d : ℕ)
    → succeeds (remap start end (source_spans ms) a b)
      ≡ succeeds (remap start end (render_spans rs ms) c d)
unfolding remap source_spans render_spans
remap-succeeds start end rs [] a b c d = refl
remap-succeeds start end rs (m ∷ ms) a b c d =
    let p : Span = span_of (utf16_len (text_for rs m)) m in
    elim (Bool-cases (strictly_in start p || strictly_in end p)) [
      | inl split ↦ rw split refl
      | inr whole ↦ elim (Bool-cases (leb p.end start)) [
        | inl before ↦ rw (whole, before) (remap-succeeds start end rs ms _ _ _ _)
        | inr after ↦ elim (Bool-cases (leb start p.start && leb p.end end)) [
          | inl around ↦ rw (whole, after, around) (remap-succeeds start end rs ms _ _ _ _)
          | inr apart ↦ rw (whole, after, apart) (remap-succeeds start end rs ms _ _ _ _)
        ]
      ]
    ]

moved-succeeds :
    (kind : String) (r : Result TemplateError (ℕ × ℕ)) → succeeds (moved kind r) ≡ succeeds r
moved-succeeds kind (ok (s, e)) = refl
moved-succeeds kind (err x) = refl

remap_at-succeeds :
    (total : ℕ) (rs : List (String × String)) (ms : List Match) (kind : String) (start length : ℤ)
    → succeeds (remap_at total (source_spans ms) kind start length)
      ≡ succeeds (remap_at total (render_spans rs ms) kind start length)
remap_at-succeeds total rs ms kind (negsuc m) length = refl
remap_at-succeeds total rs ms kind (pos m) (negsuc n) = refl
remap_at-succeeds total rs ms kind (pos m) (pos n) =
    elim (Bool-cases (n == 0 || ltb total (m + n))) [
      | inl e ↦ rw e refl
      | inr e ↦ rw e (
          moved-succeeds kind (remap m (m + n) (source_spans ms) m (m + n))
          ∙ remap-succeeds m (m + n) rs ms m (m + n) m (m + n)
          ∙ sym (moved-succeeds kind (remap m (m + n) (render_spans rs ms) m (m + n))))
    ]

remap_entity-succeeds :
    (total : ℕ) (rs : List (String × String)) (ms : List Match) (e : StoredEntity)
    → succeeds (remap_entity total (source_spans ms) e)
      ≡ succeeds (remap_entity total (render_spans rs ms) e)
unfolding remap_entity
remap_entity-succeeds total rs ms e = elim (Option-cases e.position) [
  | inl f ↦ rw f refl
  | inr ((start, length), f) ↦ rw f (remap_at-succeeds total rs ms e.kind start length)
]

and_then-succeeds :
    (r : Result TemplateError MessageEntity) (q : Result TemplateError (List MessageEntity))
    → succeeds (and_then r q) ≡ (succeeds r && succeeds q)
and_then-succeeds (err x) q = refl
and_then-succeeds (ok e) (err x) = refl
and_then-succeeds (ok e) (ok es) = refl

remap_entities-succeeds :
    (total : ℕ) (rs : List (String × String)) (ms : List Match) (es : List StoredEntity)
    → succeeds (remap_entities total (source_spans ms) es)
      ≡ succeeds (remap_entities total (render_spans rs ms) es)
unfolding remap_entities
remap_entities-succeeds total rs ms [] = refl
remap_entities-succeeds total rs ms (e ∷ es) =
    let p = source_spans ms in
    let q = render_spans rs ms in
    and_then-succeeds (remap_entity total p e) (remap_entities total p es)
    ∙ rw (remap_entity-succeeds total rs ms e, remap_entities-succeeds total rs ms es) refl
    ∙ sym (and_then-succeeds (remap_entity total q e) (remap_entities total q es))

checked-succeeds :
    (L : VariableLibrary) (r : Result TemplateError (List MessageEntity))
    → checked L r ≡ none
    → succeeds r ≡ true
checked-succeeds L (ok es) e = refl
checked-succeeds L (err x) e = cc

with_text-succeeds :
    (L : VariableLibrary) (text : String) (r : Result TemplateError (List MessageEntity))
    → ((es : List MessageEntity) → L.accepts es ≡ true)
    → succeeds (with_text L text r) ≡ succeeds r
with_text-succeeds L text (ok es) accepted = rw (accepted es) refl
with_text-succeeds L text (err x) accepted = refl

succeeds-ok : {A : Type 0} (r : Result TemplateError A) → succeeds r ≡ true → (a : A) × (r ≡ ok a)
succeeds-ok (ok a) e = (a, refl)
succeeds-ok (err x) e = cc

if-none :
    (b : Bool) (x : TemplateError) (o : Option TemplateError)
    → (if b then some x else o) ≡ none
    → (b ≡ false) × (o ≡ none)
if-none true x o e = cc
if-none false x o e = (refl, e)

module _ (L : VariableLibrary) where
  -- Where the messaging library accepts every list of entities: a template that is valid renders
  -- with any replacements for all of its variables, if the limit is positive and the text is within
  -- it.
  pub render_template-validate_template_source :
      (body : String) (entities : List StoredEntity) (allowed : List String)
      (rs : List (String × String)) (source_length max_length : ℕ)
      → ((es : List MessageEntity) → L.accepts es ≡ true)
      → validate_template_source L body entities allowed source_length ≡ none
      → all_replaced rs (L.find_variables body).0 ≡ true
      → 0 < max_length
      → utf16_len (join_pieces rs (L.find_variables body).0 (L.find_variables body).1) ≤ max_length
      → (r : RenderedTemplate) × (render_template L body entities allowed rs max_length ≡ ok r)
  unfolding render_template validate_template_source
  render_template-validate_template_source body entities allowed rs source_length max_length
        accepted valid replaced some_length fits =
      let ms = (L.find_variables body).0 in
      let text = join_pieces rs ms (L.find_variables body).1 in
      let total = utf16_len body in
      let (full, valid_1) = if-none (str_eq body "") TemplateError.empty_body _ valid in
      let (short, valid_2) = if-none (ltb source_length total) TemplateError.too_long _ valid_1 in
      let (known, valid_3) =
        if-none (not (all_allowed allowed ms)) TemplateError.unsupported_variables _ valid_2 in
      let whole : succeeds (remap_entities total (source_spans ms) entities) ≡ true =
        checked-succeeds L (remap_entities total (source_spans ms) entities) valid_3 in
      let sized : ltb max_length (utf16_len text) ≡ false = ground arith in
      let positive : (max_length == 0) ≡ false = ground arith in
      rw (full, positive, known, replaced, sized)
        (succeeds-ok (with_text L text (remap_entities total (render_spans rs ms) entities)) (
          with_text-succeeds L text (remap_entities total (render_spans rs ms) entities) accepted
          ∙ sym (remap_entities-succeeds total rs ms entities)
          ∙ whole))
