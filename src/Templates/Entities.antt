-- ===== src/Templates/Entities.antt =====
-- presentation/templates.py: the formatting of a rendered text lies in the text.
use Prim.Native.String.{String, ◌++◌ as concat}
use text.Mathlib.TextLemmas.{nil-append, cons-append}
use mathlib.Core.Path.{subst}
use cine_gate.Base.{
  ap, ◌∙◌, ℕ, ◌+◌, ◌-◌, ◌≡◌, ◌≤◌, ◌<◌, ◌==◌, leb, ltb, inl, inr, refl, arith, Bool, true, false,
  ◌&&◌, ◌||◌, not, List, [], ◌∷◌, if◌then◌else◌, str_eq, Bool-cases, Option-cases, Result, ok, err,
  All,
}
use cine_gate.Models.{ℤ, pos, negsuc}
use cine_gate.Templates.Rendering.{
  Match, VariableLibrary, StoredEntity, MessageEntity, RenderedTemplate, TemplateError, Span, units,
  utf16_len, text_for, join_pieces, render_spans, strictly_in, shifted, remap, moved, remap_at,
  remap_entity, and_then, remap_entities, with_text, all_allowed, all_replaced, render_template,
}

utf16_len-concat : (a b : String) → utf16_len (concat a b) ≡ utf16_len a + utf16_len b
unfolding utf16_len
utf16_len-concat String.[] b = omega (arith, ap utf16_len (nil-append b))
utf16_len-concat (String.◌∷◌ c t) b =
    ap utf16_len (cons-append c t b) ∙ omega (arith, utf16_len-concat t b)

-- Where an end of an entity is after the spans up to `cursor`, whose replacement is `made` long.
abbrev IsPlaced : ℕ → ℕ → ℕ → ℕ → Type 0
IsPlaced cursor made old new = if leb cursor old then new + cursor ≡ old + made else new ≤ made

-- The spans follow each other from `cursor`, and end `total` and `rendered` units from the start.
abbrev IsChain : ℕ → ℕ → List Span → ℕ → ℕ → Type 0
IsChain cursor made [] total rendered = (cursor ≤ total) × (rendered + cursor ≡ total + made)
IsChain cursor made (p ∷ ps) total rendered =
    (cursor ≤ p.start)
    × (p.start + p.original ≡ p.end)
    × IsChain p.end (made + (p.start - cursor) + p.replacement) ps total rendered

abbrev IsInside : ℕ → Result TemplateError (ℕ × ℕ) → Type 0
IsInside rendered (ok (s, e)) = (s ≤ e) × (e ≤ rendered)
IsInside rendered (err x) = Unit

remap-IsInside :
    (start end : ℕ) (ps : List Span) (new_start new_end cursor made total rendered : ℕ)
    → start < end
    → end ≤ total
    → new_start ≤ new_end
    → IsPlaced cursor made start new_start
    → IsPlaced cursor made end new_end
    → IsChain cursor made ps total rendered
    → IsInside rendered (remap start end ps new_start new_end)
unfolding remap
remap-IsInside start end [] ns ne cursor made total rendered less fits order s e chain =
    (order, ground arith)
remap-IsInside start end (p ∷ ps) ns ne cursor made total rendered less fits order s e
      (first, own, chain) =
    let then_made = made + (p.start - cursor) + p.replacement in
    elim (Bool-cases (strictly_in start p || strictly_in end p)) [
      | inl split ↦ rw (split, IsInside) tt
      | inr whole ↦ elim (Bool-cases (leb p.end start)) [
        | inl before ↦
            rw (whole, before)
              (remap-IsInside start end ps (shifted p ns) (shifted p ne) p.end then_made total
                rendered less fits (ground arith) (ground arith) (ground arith) chain)
        | inr after ↦ elim (Bool-cases (leb start p.start && leb p.end end)) [
          | inl around ↦
              rw (whole, after, around)
                (remap-IsInside start end ps ns (shifted p ne) p.end then_made total rendered less
                  fits (ground arith) (ground arith) (ground arith) chain)
          | inr apart ↦
              rw (whole, after, apart)
                (remap-IsInside start end ps ns ne p.end then_made total rendered less fits order
                  (ground arith) (ground arith) chain)
        ]
      ]
    ]

-- The matches follow each other in a body of `total` units, from the unit `cursor` on.
abbrev pub IsSplit : ℕ → List Match → String → ℕ → Type 0
IsSplit cursor [] tail total = total ≡ cursor + utf16_len tail
IsSplit cursor (m ∷ ms) tail total =
    (utf16_len m.before ≡ cursor + utf16_len m.gap)
    × (utf16_len m.until ≡ utf16_len m.before + utf16_len m.variable)
    × IsSplit (utf16_len m.until) ms tail total

-- What the expression's matches are: parts of the body, in order and apart.
pub record VariableLaws (L : VariableLibrary) : Type 0 where
  pub splits :
      (body : String)
      → IsSplit 0 (L.find_variables body).0 (L.find_variables body).1 (utf16_len body)

render_spans-IsChain :
    (rs : List (String × String)) (ms : List Match) (tail : String) (cursor made total rendered : ℕ)
    → IsSplit cursor ms tail total
    → rendered ≡ made + utf16_len (join_pieces rs ms tail)
    → IsChain cursor made (render_spans rs ms) total rendered
unfolding render_spans join_pieces
render_spans-IsChain rs [] tail cursor made total rendered split long = (omega arith, omega arith)
render_spans-IsChain rs (m ∷ ms) tail cursor made total rendered (first, own, split) long =
    let rest = join_pieces rs ms tail in
    let r = utf16_len (text_for rs m) in
    (
      omega arith,
      omega arith,
      render_spans-IsChain rs ms tail (utf16_len m.until) (made + (utf16_len m.before - cursor) + r)
          total rendered split
          (omega (
            arith,
            utf16_len-concat m.gap (concat (text_for rs m) rest),
            utf16_len-concat (text_for rs m) rest,
          )),
    )

-- An entity lies in a text of so many units.
abbrev pub IsIn : ℕ → MessageEntity → Type 0
IsIn units e = e.offset + e.length ≤ units

abbrev AreIn : ℕ → Result TemplateError (List MessageEntity) → Type 0
AreIn units (ok es) = All (IsIn units) es
AreIn units (err x) = Unit

abbrev IsInOr : ℕ → Result TemplateError MessageEntity → Type 0
IsInOr units (ok e) = IsIn units e
IsInOr units (err x) = Unit

moved-IsIn :
    (rendered : ℕ) (kind : String) (r : Result TemplateError (ℕ × ℕ))
    → IsInside rendered r
    → IsInOr rendered (moved kind r)
moved-IsIn rendered kind (ok (s, e)) h = omega (arith, h.0, h.1)
moved-IsIn rendered kind (err x) h = tt

remap_at-IsIn :
    (total rendered : ℕ) (ps : List Span) (kind : String) (start length : ℤ)
    → IsChain 0 0 ps total rendered
    → IsInOr rendered (remap_at total ps kind start length)
remap_at-IsIn total rendered ps kind (negsuc m) length chain = tt
remap_at-IsIn total rendered ps kind (pos m) (negsuc n) chain = tt
remap_at-IsIn total rendered ps kind (pos m) (pos n) chain =
    elim (Bool-cases (n == 0 || ltb total (m + n))) [
      | inl e ↦ rw (e, IsInOr) tt
      | inr e ↦ rw e (
          moved-IsIn rendered kind (remap m (m + n) ps m (m + n)) (
            remap-IsInside m (m + n) ps m (m + n) 0 0 total rendered (ground arith) (ground arith)
              (omega arith) (ground arith) (ground arith) chain))
    ]

and_then-AreIn :
    (units : ℕ) (r : Result TemplateError MessageEntity)
    (rs : Result TemplateError (List MessageEntity))
    → IsInOr units r
    → AreIn units rs
    → AreIn units (and_then r rs)
and_then-AreIn units (err x) rs h k = tt
and_then-AreIn units (ok e) (err x) h k = tt
and_then-AreIn units (ok e) (ok es) h k = (h, k)

remap_entity-IsIn :
    (total rendered : ℕ) (ps : List Span) (e : StoredEntity)
    → IsChain 0 0 ps total rendered
    → IsInOr rendered (remap_entity total ps e)
unfolding remap_entity
remap_entity-IsIn total rendered ps e chain = elim (Option-cases e.position) [
  | inl f ↦ rw (f, IsInOr) tt
  | inr ((start, length), f) ↦ rw f (remap_at-IsIn total rendered ps e.kind start length chain)
]

remap_entities-AreIn :
    (total rendered : ℕ) (ps : List Span) (es : List StoredEntity)
    → IsChain 0 0 ps total rendered
    → AreIn rendered (remap_entities total ps es)
unfolding remap_entities
remap_entities-AreIn total rendered ps [] chain = tt
remap_entities-AreIn total rendered ps (e ∷ es) chain =
    and_then-AreIn rendered (remap_entity total ps e) (remap_entities total ps es)
      (remap_entity-IsIn total rendered ps e chain)
      (remap_entities-AreIn total rendered ps es chain)

abbrev pub IsWithin : ℕ → RenderedTemplate → Type 0
IsWithin max_length r = (utf16_len r.text ≤ max_length) × All (IsIn (utf16_len r.text)) r.entities

abbrev IsWithinOr : ℕ → Result TemplateError RenderedTemplate → Type 0
IsWithinOr max_length (ok r) = IsWithin max_length r
IsWithinOr max_length (err x) = Unit

with_text-IsWithin :
    (L : VariableLibrary) (max_length : ℕ) (text : String)
    (r : Result TemplateError (List MessageEntity))
    → utf16_len text ≤ max_length
    → AreIn (utf16_len text) r
    → IsWithinOr max_length (with_text L text r)
with_text-IsWithin L max_length text (ok es) h k = elim (Bool-cases (L.accepts es)) [
  | inl e ↦ rw (e, IsWithinOr) (h, k)
  | inr e ↦ rw (e, IsWithinOr) tt
]
with_text-IsWithin L max_length text (err x) h k = tt

-- Either the code raises, or what follows the test holds of it.
if-IsWithin :
    (max_length : ℕ) (b : Bool) (x : TemplateError) (r : Result TemplateError RenderedTemplate)
    → (b ≡ false → IsWithinOr max_length r)
    → IsWithinOr max_length (if b then err x else r)
if-IsWithin max_length true x r h = tt
if-IsWithin max_length false x r h = h refl

module _ (L : VariableLibrary) (laws : VariableLaws L) where
  render_template-IsWithinOr :
      (body : String) (entities : List StoredEntity) (allowed : List String)
      (rs : List (String × String)) (max_length : ℕ)
      → IsWithinOr max_length (render_template L body entities allowed rs max_length)
  unfolding render_template
  render_template-IsWithinOr body entities allowed rs max_length =
      let ms = (L.find_variables body).0 in
      let text = join_pieces rs ms (L.find_variables body).1 in
      let chain =
        render_spans-IsChain rs ms (L.find_variables body).1 0 0 (utf16_len body) (utf16_len text)
          (laws.splits body) (omega arith) in
      let remapped = remap_entities (utf16_len body) (render_spans rs ms) entities in
      let last = with_text L text remapped in
      let sized = if ltb max_length (utf16_len text) then err TemplateError.too_long else last in
      let replaced =
        if not (all_replaced rs ms) then err TemplateError.missing_replacements else sized in
      let known =
        if not (all_allowed allowed ms)
        then err TemplateError.unsupported_variables
        else replaced in
      let bounded = if max_length == 0 then err TemplateError.invalid_max_length else known in
      if-IsWithin max_length (str_eq body "") TemplateError.empty_body bounded (λ _.
        if-IsWithin max_length (max_length == 0) TemplateError.invalid_max_length known (λ _.
          if-IsWithin max_length (not (all_allowed allowed ms)) TemplateError.unsupported_variables
            replaced
            (λ _.
              if-IsWithin max_length (not (all_replaced rs ms)) TemplateError.missing_replacements
                sized
                (λ _.
                  if-IsWithin max_length (ltb max_length (utf16_len text)) TemplateError.too_long
                    last
                    (λ e. with_text-IsWithin L max_length text remapped (ground arith) (
                      remap_entities-AreIn (utf16_len body) (utf16_len text) (render_spans rs ms)
                        entities chain))))))

  -- Where the matches of the expression are parts of the body, in order and apart: a template that
  -- is rendered is no longer than the limit, and every entity of it lies within its text.
  pub render_template-IsWithin :
      (body : String) (entities : List StoredEntity) (allowed : List String)
      (rs : List (String × String)) (max_length : ℕ) (r : RenderedTemplate)
      → render_template L body entities allowed rs max_length ≡ ok r
      → IsWithin max_length r
  render_template-IsWithin body entities allowed rs max_length r e =
      subst (IsWithinOr max_length) e
        (render_template-IsWithinOr body entities allowed rs max_length)
