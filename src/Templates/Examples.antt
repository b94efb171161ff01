-- ===== src/Templates/Examples.antt =====
-- The theorems on templates at a body with one variable in bold type, and tests of the code.
use Prim.Native.String.{String}
use mathlib.Core.Path.{subst, sym}
use cine_gate.Base.{
  ◌≡◌, ◌≤◌, refl, arith, inl, inr, true, none, some, List, [], ◌∷◌, str_eq, eq_iff, if◌then◌else◌,
  Bool-cases, ok,
}
use cine_gate.Models.{pos}
use cine_gate.Templates.Rendering.{
  Match, VariableLibrary, StoredEntity, RenderedTemplate, utf16_len, join_pieces, render_spans,
  source_spans, replacement_of, is_allowed, all_allowed, all_replaced, remap, remap_entity,
  remap_entities, render_template, validate_template_source,
}
use cine_gate.Templates.Entities.{IsSplit, VariableLaws, IsWithin, render_template-IsWithin}
use cine_gate.Templates.Validity.{render_template-validate_template_source}

abbrev variable : Match
variable = record { before = ""; until = "%a%"; gap = ""; variable = "%a%" }

-- A library that knows one body.
abbrev matches : String → List Match × String
matches t = if str_eq t "%a%!" then (variable ∷ [], "!") else ([], t)

abbrev library : VariableLibrary
library = record { find_variables = matches; accepts = λ es. true }

matches-IsSplit : (body : String) → IsSplit 0 (matches body).0 (matches body).1 (utf16_len body)
unfolding utf16_len
matches-IsSplit body = elim (Bool-cases (str_eq body "%a%!")) [
  | inl e ↦
      subst (λ t. IsSplit 0 (matches t).0 (matches t).1 (utf16_len t))
        (sym ((eq_iff body "%a%!").0 e)) (refl, refl, refl)
  | inr e ↦ rw e (omega arith)
]

abbrev laws : VariableLaws library
laws = record { splits = matches-IsSplit }

abbrev bold : StoredEntity
bold = record { position = some (pos 0, pos 3); kind = "bold" }

abbrev replacements : List (String × String)
replacements = ("%a%", "movie") ∷ []

abbrev rendered : RenderedTemplate
rendered = record {
  text = "movie!";
  entities = record { offset = 0; length = 5; kind = "bold" } ∷ [];
}

rendering : render_template library "%a%!" (bold ∷ []) ("%a%" ∷ []) replacements 20 ≡ ok rendered
unfolding render_template join_pieces all_allowed is_allowed all_replaced replacement_of
    render_spans remap_entities remap_entity remap utf16_len
rendering = refl

render_template-IsWithin_example : IsWithin 20 rendered
render_template-IsWithin_example =
    render_template-IsWithin library laws "%a%!" (bold ∷ []) ("%a%" ∷ []) replacements 20 rendered
      rendering

valid : validate_template_source library "%a%!" (bold ∷ []) ("%a%" ∷ []) 20 ≡ none
unfolding validate_template_source all_allowed is_allowed source_spans remap_entities remap_entity
    remap utf16_len
valid = refl

replaced : all_replaced replacements (variable ∷ []) ≡ true
unfolding all_replaced replacement_of
replaced = refl

short : utf16_len (join_pieces replacements (variable ∷ []) "!") ≤ 20
unfolding utf16_len join_pieces replacement_of
short = omega arith

render_template-validate_template_source_example :
    (r : RenderedTemplate) × (render_template library "%a%!"
        (bold ∷ [])
        ("%a%" ∷ [])
        replacements
        20
      ≡ ok r)
render_template-validate_template_source_example =
    render_template-validate_template_source library "%a%!" (bold ∷ []) ("%a%" ∷ []) replacements 20
      20 (λ es. refl) valid replaced (omega arith) short
