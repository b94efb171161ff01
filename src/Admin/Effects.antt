-- ===== src/Admin/Effects.antt =====
-- admin/service.py: what is in effect after an edit or a reset.
use mathlib.Core.Path.{subst, sym}
use cine_gate.Base.{
  ap, ◌∙◌, ℕ, ◌≡◌, inl, inr, refl, Bool, true, false, String, none, some, ◌∷◌, str_eq, eq_iff,
  if◌then◌else◌, or_else, Bool-cases, Option-cases, Exec, ok, Ensures, any-Ensures, Ensures-ok,
  bind-Ensures, if-Ensures, Ensures-roll_back, ◌>>=◌,
}
use cine_gate.Admin.Values.{SettingLibrary, FloatLaws, Value, same_value, parse_setting}
use cine_gate.Admin.Registry.{SettingDefinition, settings, get_setting_definition}
use cine_gate.Admin.Service.{
  OwnerEditSession, AdminError, AuditAction, AdminTables, MutationResult, stored_value, set_value,
  delete_value, effective, audit, close_edit, get_setting_effective, effective_of, result,
  write_setting, apply_parsed, apply_to, apply_setting_edit, reset_found, reset_to, reset_setting,
  require_edit_session,
}
use cine_gate.Admin.Bounds.{stored_value-set_value, stored_value-delete_value}
use cine_gate.Admin.Audit.{same_value-same}
use cine_gate.Admin.Bounds.{find_definition-key}

module _ (L : SettingLibrary) (laws : FloatLaws L) where
  -- The setting of the result has the value of the result.
  abbrev pub IsInEffect : MutationResult L → AdminTables L → Type 0
  IsInEffect r t = get_setting_effective L r.target_key t ≡ (ok r.value, t)

  effective-IsInEffect :
      (k : String) (d : SettingDefinition L) (v : Value L) (changed : Bool) (t : AdminTables L)
      → get_setting_definition L k ≡ some d
      → effective L d t.stored ≡ v
      → IsInEffect (result L changed d v) t
  unfolding get_setting_effective
  effective-IsInEffect k d v changed t found e =
      let own : get_setting_definition L d.key ≡ some d =
        ap (λ j. get_setting_definition L j) (find_definition-key L k d (settings L) found)
        ∙ found in
      subst (λ o. effective_of L o t ≡ (ok v, t)) (sym own) (ap (λ w. (ok w, t)) e)

  write_setting-IsInEffect :
      (owner : ℕ) (k : String) (d : SettingDefinition L) (v : Value L) (s : AdminTables L)
      → get_setting_definition L k ≡ some d
      → Ensures IsInEffect (write_setting L owner d v s)
  unfolding write_setting
  write_setting-IsInEffect owner k d v s found =
      elim (Bool-cases (same_value L v (effective L d s.stored))) [
        | inl e ↦
            rw (e, Ensures)
              (effective-IsInEffect k d v false (close_edit L owner s) found
                (sym (same_value-same L laws v (effective L d s.stored) e)))
        | inr e ↦
            let own : str_eq d.key d.key ≡ true = (eq_iff d.key d.key).1 refl in
            let now : stored_value L d.key (set_value L d.key v s.stored) ≡ some v =
              stored_value-set_value L d.key d.key v s.stored
              ∙ ap (λ b. if b then some v else stored_value L d.key s.stored) own in
            let t : AdminTables L = close_edit L owner (record s {
              stored = set_value L d.key v s.stored;
              audits = audit L owner AuditAction.set d (effective L d s.stored) v ∷ s.audits;
            }) in
            rw (e, Ensures)
              (effective-IsInEffect k d v true t found (ap (λ o. or_else o d.default) now))
      ]

  apply_to-IsInEffect :
      (owner : ℕ) (k raw : String) (s : AdminTables L)
      → Ensures IsInEffect (apply_to L owner raw (get_setting_definition L k) s)
  apply_to-IsInEffect owner k raw s = elim (Option-cases (get_setting_definition L k)) [
    | inl e ↦ subst (λ o. Ensures IsInEffect (apply_to L owner raw o s)) (sym e) tt
    | inr (d, e) ↦
        subst (λ o. Ensures IsInEffect (apply_to L owner raw o s)) (sym e)
          (elim (Option-cases (parse_setting L d.rule raw)) [
            | inl f ↦ subst (λ o. Ensures IsInEffect (apply_parsed L owner d o s)) (sym f) tt
            | inr (v, f) ↦
                subst (λ o. Ensures IsInEffect (apply_parsed L owner d o s)) (sym f)
                  (write_setting-IsInEffect owner k d v s e)
          ])
  ]

  apply_setting_edit-Ensures :
      (owner : ℕ) (raw : String) (s : AdminTables L)
      → Ensures IsInEffect (apply_setting_edit L owner raw s)
  unfolding apply_setting_edit
  apply_setting_edit-Ensures owner raw s =
      let f : OwnerEditSession → Exec (AdminTables L) AdminError (MutationResult L) =
        λ e. apply_to L owner raw (get_setting_definition L e.target_key) in
      Ensures-roll_back IsInEffect s ((require_edit_session L owner "setting" >>= f) s) (
        bind-Ensures (λ e t. Unit {0}) IsInEffect (require_edit_session L owner "setting") f s
          (any-Ensures (require_edit_session L owner "setting" s))
          (λ e t _. apply_to-IsInEffect owner e.target_key raw t))

  -- For floats with the laws of rounding and equality: after an edit of a setting that does not
  -- raise, the value in effect of the setting is the value of the result.
  pub apply_setting_edit-effective :
      (owner : ℕ) (raw : String) (s t : AdminTables L) (r : MutationResult L)
      → apply_setting_edit L owner raw s ≡ (ok r, t)
      → get_setting_effective L r.target_key t ≡ (ok r.value, t)
  apply_setting_edit-effective owner raw s t r e =
      Ensures-ok IsInEffect (apply_setting_edit L owner raw s) r t
        (apply_setting_edit-Ensures owner raw s) e

  reset_to-IsInEffect :
      (owner : ℕ) (k : String) (s : AdminTables L)
      → Ensures (λ r t. IsInEffect r t) (reset_to L owner (get_setting_definition L k) s)
  reset_to-IsInEffect owner k s = elim (Option-cases (get_setting_definition L k)) [
    | inl e ↦ subst (λ o. Ensures IsInEffect (reset_to L owner o s)) (sym e) tt
    | inr (d, e) ↦
        subst (λ o. Ensures IsInEffect (reset_to L owner o s)) (sym e)
          (elim (Option-cases (stored_value L d.key s.stored)) [
            | inl f ↦
                subst (λ o. Ensures IsInEffect (reset_found L owner d o s)) (sym f)
                  (effective-IsInEffect k d d.default false s e (ap (λ o. or_else o d.default) f))
            | inr (old, f) ↦
                subst (λ o. Ensures IsInEffect (reset_found L owner d o s)) (sym f)
                  (cleared owner k d old s e)
          ])
  ]
    where
      cleared :
          (owner : ℕ) (k : String) (d : SettingDefinition L) (old : Value L) (s : AdminTables L)
          → get_setting_definition L k ≡ some d
          → Ensures IsInEffect (reset_found L owner d (some old) s)
      cleared owner k d old s found =
          let own : str_eq d.key d.key ≡ true = (eq_iff d.key d.key).1 refl in
          let now : stored_value L d.key (delete_value L d.key s.stored) ≡ none =
            stored_value-delete_value L d.key d.key s.stored
            ∙ ap (λ b. if b then none else stored_value L d.key s.stored) own in
          let kept : AdminTables L = record s { stored = delete_value L d.key s.stored } in
          let noted : AdminTables L = record kept {
            audits = audit L owner AuditAction.reset d old d.default ∷ s.audits;
          } in
          if-Ensures IsInEffect (same_value L old d.default) (ok (result L false d d.default), kept)
            (ok (result L true d d.default), noted)
            (effective-IsInEffect k d d.default false kept found
              (ap (λ o. or_else o d.default) now))
            (effective-IsInEffect k d d.default true noted found
              (ap (λ o. or_else o d.default) now))

  -- After a reset of a setting that does not raise, the value in effect is the value of the result.
  pub reset_setting-effective :
      (owner : ℕ) (key : String) (s t : AdminTables L) (r : MutationResult L)
      → reset_setting L owner key s ≡ (ok r, t)
      → get_setting_effective L r.target_key t ≡ (ok r.value, t)
  unfolding reset_setting
  reset_setting-effective owner key s t r e =
      Ensures-ok IsInEffect (reset_setting L owner key s) r t
        (Ensures-roll_back IsInEffect s (reset_to L owner (get_setting_definition L key) s)
          (reset_to-IsInEffect owner key s))
        e
