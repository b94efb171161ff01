-- ===== src/Admin/Bounds.antt =====
-- admin/service.py with admin/registry.py: the values that the settings can have.
use mathlib.Core.Path.{sym}
use cine_gate.Base.{
  ap, ◌∙◌, ℕ, ◌≡◌, ◌*◌, or_else, leb, inl, inr, refl, arith, Bool, true, false, ◌&&◌, not, String,
  Option, none, some, List, [], ◌∷◌, str_eq, eq_iff, if◌then◌else◌, Bool-cases,
}
use cine_gate.Models.{ℤ}
use cine_gate.Admin.Values.{
  SettingLibrary, FloatLaws, Rule, int_range, float_range, duration_range, nonzero, archive_channel,
  https_url, block_id, int_within, is_negative, is_zero, Value, integer, decimal, text, is_base_url,
  parse_setting, bounded_int, bounded_float, in_seconds, bounded_duration, nonzero_int,
  negative_int, as_integer, multiplier, unit_table,
}
use cine_gate.Admin.Registry.{SettingDefinition, settings, find_definition, get_setting_definition}
use cine_gate.Admin.Service.{stored_value, set_value, delete_value}

-- The values that a rule admits.
unfoldable pub is_valid : (L : SettingLibrary) → Rule → Value L → Bool
unfolding int_within
is_valid L (int_range low high) (integer n) = int_within low high n
is_valid L (duration_range low high) (integer n) = int_within low high n
is_valid L (float_range low high) (decimal x) = L.is_within low high x
is_valid L nonzero (integer n) = not (is_zero n)
is_valid L archive_channel (integer n) = is_negative n
is_valid L https_url (text t) = is_base_url L (L.split_url t)
is_valid L block_id (text t) = L.is_block_id t
is_valid L _ _ = false

module _ (L : SettingLibrary) where
  -- What is there is admitted.
  abbrev pub IsAdmitted : Rule → Option (Value L) → Type 0
  IsAdmitted rule none = Unit
  IsAdmitted rule (some v) = is_valid L rule v ≡ true

  bounded_int-IsAdmitted :
      (low high : ℕ) (o : Option ℤ) → IsAdmitted (int_range low high) (bounded_int L low high o)
  unfolding is_valid
  bounded_int-IsAdmitted low high none = tt
  bounded_int-IsAdmitted low high (some n) = elim (Bool-cases (int_within low high n)) [
    | inl e ↦ rw (e, IsAdmitted) e
    | inr e ↦ rw (e, IsAdmitted) tt
  ]

  bounded_float-IsAdmitted :
      (laws : FloatLaws L) (low high : ℕ) (o : Option L.Float)
      → IsAdmitted (float_range low high) (bounded_float L low high o)
  unfolding is_valid
  bounded_float-IsAdmitted laws low high none = tt
  bounded_float-IsAdmitted laws low high (some x) = elim (Bool-cases (L.is_within low high x)) [
    | inl e ↦ rw (e, IsAdmitted) (laws.round_within low high x e)
    | inr e ↦ rw (e, IsAdmitted) tt
  ]

  in_seconds-IsAdmitted :
      (low high amount : ℕ) (o : Option ℕ)
      → IsAdmitted (duration_range low high) (in_seconds L low high amount o)
  unfolding is_valid
  in_seconds-IsAdmitted low high amount none = tt
  in_seconds-IsAdmitted low high amount (some k) =
      elim (Bool-cases (leb low (amount * k) && leb (amount * k) high)) [
        | inl e ↦ rw (e, IsAdmitted) e
        | inr e ↦ rw (e, IsAdmitted) tt
      ]

  nonzero-IsAdmitted : (o : Option ℤ) → IsAdmitted nonzero (as_integer L (nonzero_int L o))
  unfolding is_valid
  nonzero-IsAdmitted none = tt
  nonzero-IsAdmitted (some n) = elim (Bool-cases (is_zero n)) [
    | inl e ↦ rw (e, IsAdmitted) tt
    | inr e ↦ rw (e, IsAdmitted) (ap not e)
  ]

  negative-IsAdmitted : (o : Option ℤ) → IsAdmitted archive_channel (negative_int L o)
  unfolding is_valid
  negative-IsAdmitted none = tt
  negative-IsAdmitted (some n) = elim (Bool-cases (is_negative n)) [
    | inl e ↦ rw (e, IsAdmitted) e
    | inr e ↦ rw (e, IsAdmitted) tt
  ]

  duration-IsAdmitted :
      (low high : ℕ) (o : Option (ℕ × Option String))
      → IsAdmitted (duration_range low high) (bounded_duration L low high o)
  duration-IsAdmitted low high none = tt
  duration-IsAdmitted low high (some (amount, unit)) =
      in_seconds-IsAdmitted low high amount (multiplier (or_else unit "s") unit_table)

  pub parse_setting-IsAdmitted :
      (laws : FloatLaws L) (rule : Rule) (raw : String) → IsAdmitted rule (parse_setting L rule raw)
  unfolding parse_setting is_valid
  parse_setting-IsAdmitted laws (int_range low high) raw =
      bounded_int-IsAdmitted low high (L.read_int (L.strip raw))
  parse_setting-IsAdmitted laws (duration_range low high) raw =
      duration-IsAdmitted low high (L.match_duration raw)
  parse_setting-IsAdmitted laws (float_range low high) raw =
      bounded_float-IsAdmitted laws low high (L.read_float (L.strip raw))
  parse_setting-IsAdmitted laws nonzero raw = nonzero-IsAdmitted (L.read_int (L.strip raw))
  parse_setting-IsAdmitted laws archive_channel raw =
      negative-IsAdmitted (nonzero_int L (L.read_int (L.strip raw)))
  parse_setting-IsAdmitted laws https_url raw =
      elim (Bool-cases (is_base_url L (L.split_url (L.strip_slashes (L.strip raw))))) [
        | inl e ↦ rw (e, IsAdmitted) e
        | inr e ↦ rw (e, IsAdmitted) tt
      ]
  parse_setting-IsAdmitted laws block_id raw = elim (Bool-cases (L.is_block_id (L.strip raw))) [
    | inl e ↦ rw (e, IsAdmitted) e
    | inr e ↦ rw (e, IsAdmitted) tt
  ]

  pub stored_value-set_value :
      (k l : String) (v : Value L) (s : List (String × Value L))
      → stored_value L k (set_value L l v s) ≡ (if str_eq l k then some v else stored_value L k s)
  unfolding stored_value set_value
  stored_value-set_value k l v [] = refl
  stored_value-set_value k l v ((m, w) ∷ rest) =
      ground (arith, stored_value-set_value k l v rest, eq_iff m l, eq_iff m k, eq_iff l k)

  pub stored_value-delete_value :
      (k l : String) (s : List (String × Value L))
      → stored_value L k (delete_value L l s) ≡ (if str_eq l k then none else stored_value L k s)
  unfolding stored_value delete_value
  stored_value-delete_value k l [] = ground arith
  stored_value-delete_value k l ((m, w) ∷ rest) =
      ground (arith, stored_value-delete_value k l rest, eq_iff m l, eq_iff m k, eq_iff l k)

  pub find_definition-key :
      (k : String) (d : SettingDefinition L) (ds : List (SettingDefinition L))
      → find_definition L k ds ≡ some d
      → d.key ≡ k
  unfolding find_definition
  find_definition-key k d [] e = cc
  find_definition-key k d (c ∷ ds) e = ground (arith, find_definition-key k d ds, eq_iff c.key k)

  -- Two definitions that are found under one key are one.
  pub find_definition-same :
      (k l : String) (d c : SettingDefinition L)
      → get_setting_definition L k ≡ some d
      → get_setting_definition L l ≡ some c
      → d.key ≡ c.key
      → d ≡ c
  unfolding find_definition
  find_definition-same k l d c e f same =
      let one : k ≡ l =
        sym (find_definition-key k d (settings L) e)
        ∙ same
        ∙ find_definition-key l c (settings L) f in
      let both : some d ≡ some c = sym e ∙ ap (λ j. get_setting_definition L j) one ∙ f in cc
