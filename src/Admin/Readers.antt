-- ===== src/Admin/Readers.antt =====
-- repositories/settings.py: the settings that the owner writes, as the services read them.
use mathlib.Core.Path.{subst, sym}
use cine_gate.Base.{
  ap, ℕ, max, min, ◌≡◌, refl, arith, String, Option, none, some, List, [], ◌∷◌, or_else, ok,
}
use cine_gate.Models.{ℤ, pos, negsuc, SettingValue, setting, get_int, clamp}
use cine_gate.Rewards.Rows.{bounded_session_seconds, RewardError}
use cine_gate.Delivery.Rows.{bounded_delete_seconds}
use cine_gate.Admin.Values.{
  SettingLibrary, FloatLaws, duration_range, int_within, Value, absent, other, integer, decimal,
  text,
}
use cine_gate.Admin.Registry.{SettingDefinition, find_definition, get_setting_definition}
use cine_gate.Admin.Service.{AdminTables, stored_value, effective}
use cine_gate.Admin.Bounds.{is_valid, IsAdmitted}
use cine_gate.Admin.Audit.{IsKept}
use cine_gate.Admin.Runs.{AdminRuns, AdminRuns-IsKept}

module _ (L : SettingLibrary) where
  -- A stored value as the readers of settings tell values apart.
  abbrev pub as_setting : Value L → SettingValue
  as_setting (integer n) = SettingValue.integer n
  as_setting absent = SettingValue.null
  as_setting _ = SettingValue.other

  -- The rows of `app_settings` for the services.
  pub as_settings : List (String × Value L) → List (String × SettingValue)
  as_settings [] = []
  as_settings ((k, v) ∷ rest) = (k, as_setting v) ∷ as_settings rest

  abbrev as_option : Option (Value L) → Option SettingValue
  as_option none = none
  as_option (some v) = some (as_setting v)

  setting-as_settings :
      (k : String) (s : List (String × Value L))
      → setting k (as_settings s) ≡ as_option (stored_value L k s)
  unfolding setting as_settings stored_value
  setting-as_settings k [] = refl
  setting-as_settings k ((l, v) ∷ rest) = ground (arith, setting-as_settings k rest)

  -- A duration between the bounds, absent ones too.
  abbrev pub duration : ℕ → ℕ → ℕ → String → SettingDefinition L
  duration low high default key = record {
    key = key;
    default = integer (pos default);
    rule = duration_range low high;
  }

  bounded_delete_seconds-as_option :
      (o : Option (Value L))
      → IsAdmitted L (duration_range 5 172000) o
      → or_else o (integer (pos 120)) ≡ integer (pos (bounded_delete_seconds (as_option o)))
  unfolding bounded_delete_seconds is_valid int_within clamp
  bounded_delete_seconds-as_option none h = refl
  bounded_delete_seconds-as_option (some (integer (pos n))) h =
      let same : n ≡ max 5 (min 172000 n) = ground arith in ap (λ m. integer (pos m)) same
  bounded_delete_seconds-as_option (some (integer (negsuc n))) h = cc
  bounded_delete_seconds-as_option (some absent) h = cc
  bounded_delete_seconds-as_option (some other) h = cc
  bounded_delete_seconds-as_option (some (decimal x)) h = cc
  bounded_delete_seconds-as_option (some (text t)) h = cc

  -- The reader of an integer does not raise, and reads the value in effect.
  abbrev pub Reads : Option SettingValue → Value L → Type 0
  Reads o v =
      (n : Option ℤ) × (get_int {S = Unit {0}} RewardError.setting_type_error o tt ≡ (ok n, tt))
      × (v ≡ integer (pos (bounded_session_seconds n)))

  Reads-as_option :
      (o : Option (Value L))
      → IsAdmitted L (duration_range 60 3600) o
      → Reads (as_option o) (or_else o (integer (pos 600)))
  unfolding bounded_session_seconds is_valid int_within clamp get_int
  Reads-as_option none h = (none, refl, refl)
  Reads-as_option (some (integer (pos n))) h =
      let same : n ≡ max 60 (min 3600 n) = ground arith in
      (some (pos n), refl, ap (λ m. integer (pos m)) same)
  Reads-as_option (some (integer (negsuc n))) h = cc
  Reads-as_option (some absent) h = cc
  Reads-as_option (some other) h = cc
  Reads-as_option (some (decimal x)) h = cc
  Reads-as_option (some (text t)) h = cc

  -- The definition of a duration in the registry.
  abbrev pub delete_definition : SettingDefinition L
  delete_definition = duration 5 172000 120 "movie_delete_seconds"

  abbrev pub session_definition : SettingDefinition L
  session_definition = duration 60 3600 600 "reward_session_seconds"

  delete_found : get_setting_definition L "movie_delete_seconds" ≡ some delete_definition
  unfolding find_definition
  delete_found = refl

  session_found : get_setting_definition L "reward_session_seconds" ≡ some session_definition
  unfolding find_definition
  session_found = refl

  -- For floats with the laws of rounding and equality, and tables in which the stored time of
  -- deletion, if any, is one that its rule admits and the value in effect is the last one of the
  -- audit log, or the default: after any actions of owners, the time of deletion that the delivery
  -- reads and bounds is the value in effect.
  pub AdminRuns-bounded_delete_seconds :
      (laws : FloatLaws L) {s t : AdminTables L}
      → IsKept L delete_definition s
      → AdminRuns L s t
      → effective L delete_definition t.stored
        ≡ integer
            (pos (bounded_delete_seconds (setting "movie_delete_seconds" (as_settings t.stored))))
  AdminRuns-bounded_delete_seconds laws {s} {t} h r =
      let kept =
        AdminRuns-IsKept L laws "movie_delete_seconds" delete_definition delete_found h r in
      rw (setting-as_settings "movie_delete_seconds" t.stored)
        (bounded_delete_seconds-as_option (stored_value L "movie_delete_seconds" t.stored) kept.1)

  -- For floats with the laws of rounding and equality, and tables in which the stored length of a
  -- reward session, if any, is one that its rule admits and the value in effect is the last one of
  -- the audit log, or the default: after any actions of owners, the reader of that length raises no
  -- type error, and the length that it bounds is the value in effect.
  pub AdminRuns-Reads :
      (laws : FloatLaws L) {s t : AdminTables L}
      → IsKept L session_definition s
      → AdminRuns L s t
      → Reads
          (setting "reward_session_seconds" (as_settings t.stored))
          (effective L session_definition t.stored)
  AdminRuns-Reads laws {s} {t} h r =
      let kept =
        AdminRuns-IsKept L laws "reward_session_seconds" session_definition session_found h r in
      subst (λ o. Reads o (effective L session_definition t.stored))
        (sym (setting-as_settings "reward_session_seconds" t.stored))
        (Reads-as_option (stored_value L "reward_session_seconds" t.stored) kept.1)
