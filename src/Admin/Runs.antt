-- ===== src/Admin/Runs.antt =====
-- admin/service.py: any sequence of the owner's actions on edits and settings.
use mathlib.Core.Path.{subst, sym}
use cine_gate.Base.{
  ap, ◌∙◌, ℕ, ◌≡◌, inl, inr, refl, Bool, true, false, String, some, str_eq, eq_iff, Bool-cases,
  Option-cases, Exec, pure, modify, Ensures, bind-Ensures, roll_back-Ensures, ◌>>=◌, ◌>>◌, lookup,
}
use cine_gate.Admin.Values.{SettingLibrary, FloatLaws, Value, parse_setting}
use cine_gate.Admin.Registry.{SettingDefinition, get_setting_definition, has_key, template_keys}
use cine_gate.Admin.Service.{
  OwnerEditSession, AdminError, AdminTables, MutationResult, edit_key, put_edit,
  validate_edit_target, known_target, is_definition, write_setting, apply_parsed, apply_to,
  apply_setting_edit, reset_to, reset_setting, begin_edit, cancel_edit, expect_kind,
  require_edit_session,
}
use cine_gate.Admin.Bounds.{IsAdmitted, parse_setting-IsAdmitted, find_definition-same}
use cine_gate.Admin.Audit.{
  IsKept, Keeps, write_setting-own, write_setting-other, reset_found-own, reset_found-other,
}

-- The tables that the actions of owners reach from `s`; one that raises is undone.
pub data AdminRuns (L : SettingLibrary) (s : AdminTables L) : AdminTables L → Type 0 where
  start : AdminRuns L s s
  begun :
      (owner : ℕ) (kind key : String) {t : AdminTables L}
      → AdminRuns L s t
      → AdminRuns L s (begin_edit L owner kind key t).1
  cancelled :
      (owner : ℕ) {t : AdminTables L} → AdminRuns L s t → AdminRuns L s (cancel_edit L owner t).1
  applied :
      (owner : ℕ) (raw : String) {t : AdminTables L}
      → AdminRuns L s t
      → AdminRuns L s (apply_setting_edit L owner raw t).1
  was_reset :
      (owner : ℕ) (key : String) {t : AdminTables L}
      → AdminRuns L s t
      → AdminRuns L s (reset_setting L owner key t).1

module _ (L : SettingLibrary) where
  -- Checks leave the tables.
  known_target-Ensures :
      (b : Bool) (e : AdminError) (s : AdminTables L)
      → Ensures (λ u t. t ≡ s) (known_target L b e s)
  known_target-Ensures true e s = refl
  known_target-Ensures false e s = tt

  validate_edit_target-Ensures :
      (kind key : String) (s : AdminTables L)
      → Ensures (λ u t. t ≡ s) (validate_edit_target L kind key s)
  unfolding validate_edit_target
  validate_edit_target-Ensures kind key s = elim (Bool-cases (str_eq kind "setting")) [
    | inl e ↦ rw e (
        known_target-Ensures (is_definition L (get_setting_definition L key))
          AdminError.unknown_setting s)
    | inr e ↦ elim (Bool-cases (str_eq kind "template")) [
      | inl f ↦
          rw (e, f) (known_target-Ensures (has_key key template_keys) AdminError.unknown_template s)
      | inr f ↦ rw (e, f, Ensures) tt
    ]
  ]

  expect_kind-Ensures :
      (kind : String) (e : OwnerEditSession) (s : AdminTables L)
      → Ensures (λ f t. t ≡ s) (expect_kind L kind e s)
  expect_kind-Ensures kind e s = elim (Bool-cases (str_eq e.edit_kind kind)) [
    | inl f ↦ rw f (
        bind-Ensures (λ u t. t ≡ s) (λ g t. t ≡ s) (validate_edit_target L e.edit_kind e.target_key)
          (λ _. pure e) s (validate_edit_target-Ensures e.edit_kind e.target_key s)
          (λ u t same. same))
    | inr f ↦ rw (f, Ensures) tt
  ]

  require_edit_session-Ensures :
      (owner : ℕ) (kind : String) (s : AdminTables L)
      → Ensures (λ e t. t ≡ s) (require_edit_session L owner kind s)
  unfolding require_edit_session
  require_edit_session-Ensures owner kind s = elim (Option-cases (lookup edit_key owner s.edits)) [
    | inl e ↦ rw (e, Ensures) tt
    | inr (f, e) ↦ rw e (expect_kind-Ensures kind f s)
  ]

  module _ (laws : FloatLaws L) (k : String) (d : SettingDefinition L)
      (found : get_setting_definition L k ≡ some d) where
    -- The other definition is under another key or the same.
    write_setting-Keeps :
        (owner : ℕ) (l : String) (c : SettingDefinition L) (v : Value L) (s : AdminTables L)
        → get_setting_definition L l ≡ some c
        → IsAdmitted L c.rule (some v)
        → IsKept L d s
        → Keeps L d (write_setting L owner c v s)
    write_setting-Keeps owner l c v s there fits h = elim (Bool-cases (str_eq c.key d.key)) [
      | inl e ↦
          let one : c ≡ d = find_definition-same L l k c d there found ((eq_iff c.key d.key).0 e) in
          subst (λ x. Keeps L d (write_setting L owner x v s)) (sym one)
            (write_setting-own L laws owner d v s
              (subst (λ x. IsAdmitted L x.rule (some v)) one fits) h)
      | inr e ↦ write_setting-other L laws owner c d v s e h
    ]

    reset_to-Keeps :
        (owner : ℕ) (l : String) (s : AdminTables L)
        → IsKept L d s
        → Keeps L d (reset_to L owner (get_setting_definition L l) s)
    reset_to-Keeps owner l s h = elim (Option-cases (get_setting_definition L l)) [
      | inl e ↦ rw (e, Ensures) tt
      | inr (c, e) ↦ elim (Bool-cases (str_eq c.key d.key)) [
        | inl f ↦
            let one : c ≡ d = find_definition-same L l k c d e found ((eq_iff c.key d.key).0 f) in
            subst (λ o. Keeps L d (reset_to L owner o s)) (sym (e ∙ ap some one))
              (reset_found-own L laws owner d s h)
        | inr f ↦
            subst (λ o. Keeps L d (reset_to L owner o s)) (sym e)
              (reset_found-other L laws owner c d s f h)
      ]
    ]

    apply_to-Keeps :
        (owner : ℕ) (l raw : String) (s : AdminTables L)
        → IsKept L d s
        → Keeps L d (apply_to L owner raw (get_setting_definition L l) s)
    apply_to-Keeps owner l raw s h = elim (Option-cases (get_setting_definition L l)) [
      | inl e ↦ subst (λ o. Keeps L d (apply_to L owner raw o s)) (sym e) tt
      | inr (c, e) ↦
          subst (λ o. Keeps L d (apply_to L owner raw o s)) (sym e)
            (elim (Option-cases (parse_setting L c.rule raw)) [
              | inl f ↦ subst (λ o. Keeps L d (apply_parsed L owner c o s)) (sym f) tt
              | inr (v, f) ↦
                  subst (λ o. Keeps L d (apply_parsed L owner c o s)) (sym f)
                    (write_setting-Keeps owner l c v s e
                      (subst (IsAdmitted L c.rule) f (parse_setting-IsAdmitted L laws c.rule raw))
                      h)
            ])
    ]

    apply_setting_edit-IsKept :
        (owner : ℕ) (raw : String) (s : AdminTables L)
        → IsKept L d s
        → IsKept L d (apply_setting_edit L owner raw s).1
    unfolding apply_setting_edit
    apply_setting_edit-IsKept owner raw s h =
        let f : OwnerEditSession → Exec (AdminTables L) AdminError (MutationResult L) =
          λ e. apply_to L owner raw (get_setting_definition L e.target_key) in
        roll_back-Ensures (IsKept L d) s ((require_edit_session L owner "setting" >>= f) s) h (
          bind-Ensures (λ e t. t ≡ s) (λ r t. IsKept L d t) (require_edit_session L owner "setting")
            f s (require_edit_session-Ensures owner "setting" s)
            (λ e t same. apply_to-Keeps owner e.target_key raw t (subst (IsKept L d) (sym same) h)))

    reset_setting-IsKept :
        (owner : ℕ) (l : String) (s : AdminTables L)
        → IsKept L d s
        → IsKept L d (reset_setting L owner l s).1
    unfolding reset_setting
    reset_setting-IsKept owner l s h =
        roll_back-Ensures (IsKept L d) s (reset_to L owner (get_setting_definition L l) s) h
          (reset_to-Keeps owner l s h)

    begin_edit-IsKept :
        (owner : ℕ) (kind key : String) (s : AdminTables L)
        → IsKept L d s
        → IsKept L d (begin_edit L owner kind key s).1
    unfolding begin_edit
    begin_edit-IsKept owner kind key s h =
        let e : OwnerEditSession = record {
          owner_user_id = owner;
          edit_kind = kind;
          target_key = key;
        } in
        let f : Unit {0} → Exec (AdminTables L) AdminError OwnerEditSession =
          λ _. modify (put_edit L e) >> pure e in
        roll_back-Ensures (IsKept L d) s ((validate_edit_target L kind key >>= f) s) h (
          bind-Ensures (λ u t. t ≡ s) (λ r t. IsKept L d t) (validate_edit_target L kind key) f s
            (validate_edit_target-Ensures kind key s) (λ u t same. subst (IsKept L d) (sym same) h))

    cancel_edit-IsKept :
        (owner : ℕ) (s : AdminTables L) → IsKept L d s → IsKept L d (cancel_edit L owner s).1
    unfolding cancel_edit
    cancel_edit-IsKept owner s h = elim (Option-cases (lookup edit_key owner s.edits)) [
      | inl e ↦ rw e h
      | inr (f, e) ↦ rw e h
    ]

    -- For floats with the laws of rounding and equality, and a setting of the registry: the actions
    -- of owners in any order keep the value in effect the last one of the audit log, or the
    -- default, and keep a stored value one that the rule of the setting admits.
    pub AdminRuns-IsKept : {s t : AdminTables L} → IsKept L d s → AdminRuns L s t → IsKept L d t
    AdminRuns-IsKept h start = h
    AdminRuns-IsKept h (begun owner kind key {t} r) =
        begin_edit-IsKept owner kind key t (AdminRuns-IsKept h r)
    AdminRuns-IsKept h (cancelled owner {t} r) = cancel_edit-IsKept owner t (AdminRuns-IsKept h r)
    AdminRuns-IsKept h (applied owner raw {t} r) =
        apply_setting_edit-IsKept owner raw t (AdminRuns-IsKept h r)
    AdminRuns-IsKept h (was_reset owner key {t} r) =
        reset_setting-IsKept owner key t (AdminRuns-IsKept h r)
