-- ===== src/Admin/Service.antt =====
-- admin/service.py: OwnerAdminService, the edit session of an owner and the settings.
--
-- A method is one transaction; the advisory lock orders the methods of an owner. The edits of
-- templates are not in this file.
use cine_gate.Base.{
  ℕ, ◌==◌, String, Bool, true, false, Option, none, some, List, [], ◌∷◌, str_eq, if◌then◌else◌,
  or_else, Exec, ok, err, pure, raise, or_raise, modify, transaction, ◌>>=◌, ◌>>◌, lookup,
}
use cine_gate.Admin.Values.{SettingLibrary, Value, same_value, parse_setting}
use cine_gate.Admin.Registry.{SettingDefinition, get_setting_definition, has_key, template_keys}

pub record OwnerEditSession : Type 0 where
  pub owner_user_id : ℕ
  pub edit_kind : String
  pub target_key : String

pub data AdminError : Type 0 where
  unknown_setting unknown_template unknown_kind no_edit_session other_edit_kind invalid_value :
      AdminError

pub data AuditAction : Type 0 where
  set reset : AuditAction

abbrev pub edit_key : OwnerEditSession → ℕ
edit_key e = e.owner_user_id

-- `insert ... on conflict do update` under the owner.
pub upsert_edit : OwnerEditSession → List OwnerEditSession → List OwnerEditSession
upsert_edit e [] = e ∷ []
upsert_edit e (f ∷ fs) = if f.owner_user_id == e.owner_user_id then e ∷ fs else f ∷ upsert_edit e fs

unfoldable pub delete_edit : ℕ → List OwnerEditSession → List OwnerEditSession
delete_edit owner [] = []
delete_edit owner (f ∷ fs) = if f.owner_user_id == owner then fs else f ∷ delete_edit owner fs

module _ (L : SettingLibrary) where
  -- An entry of the audit log whose target type is `setting`.
  pub record AuditEntry : Type 0 where
    pub owner_user_id : ℕ
    pub action : AuditAction
    pub target_key : String
    pub old_value : Value L
    pub new_value : Value L

  -- The audit log has its last entry first.
  pub record AdminTables : Type 0 where
    pub stored : List (String × Value L)
    pub edits : List OwnerEditSession
    pub audits : List AuditEntry

  pub record MutationResult : Type 0 where
    pub changed : Bool
    pub target_key : String
    pub value : Value L

  abbrev pub Admin : Type 0 → Type 0
  Admin = Exec AdminTables AdminError

  unfoldable pub stored_value : String → List (String × Value L) → Option (Value L)
  stored_value k [] = none
  stored_value k ((l, v) ∷ rest) = if str_eq l k then some v else stored_value k rest

  -- `SettingsRepository.set`.
  unfoldable pub set_value : String → Value L → List (String × Value L) → List (String × Value L)
  set_value k v [] = (k, v) ∷ []
  set_value k v ((l, w) ∷ rest) = if str_eq l k then (l, v) ∷ rest else (l, w) ∷ set_value k v rest

  -- `session.delete` of the row of the key; a key has one row.
  unfoldable pub delete_value : String → List (String × Value L) → List (String × Value L)
  delete_value k [] = []
  delete_value k ((l, w) ∷ rest) =
      let others = delete_value k rest in if str_eq l k then others else (l, w) ∷ others

  abbrev pub known_target : Bool → AdminError → Admin (Unit {0})
  known_target true e s = (ok tt, s)
  known_target false e s = (err e, s)

  abbrev pub is_definition : Option (SettingDefinition L) → Bool
  is_definition none = false
  is_definition (some d) = true

  -- `_validate_edit_target`.
  unfoldable pub validate_edit_target : String → String → Admin (Unit {0})
  validate_edit_target kind key =
      if str_eq kind "setting"
      then known_target (is_definition (get_setting_definition L key)) AdminError.unknown_setting
      else if str_eq kind "template"
      then known_target (has_key key template_keys) AdminError.unknown_template
      else raise AdminError.unknown_kind

  abbrev pub put_edit : OwnerEditSession → AdminTables → AdminTables
  put_edit e s = record s { edits = upsert_edit e s.edits }

  unfoldable pub begin_edit : ℕ → String → String → Admin OwnerEditSession
  begin_edit owner kind key =
      let e : OwnerEditSession = record {
        owner_user_id = owner;
        edit_kind = kind;
        target_key = key;
      } in
      transaction (do validate_edit_target kind key; modify (put_edit e); pure e)

  -- `get_edit`.
  pub get_edit : ℕ → AdminTables → Option OwnerEditSession
  get_edit owner s = lookup edit_key owner s.edits

  abbrev pub close_edit : ℕ → AdminTables → AdminTables
  close_edit owner s = record s { edits = delete_edit owner s.edits }

  abbrev pub cancel_found : ℕ → Option OwnerEditSession → Admin Bool
  cancel_found owner none s = (ok false, s)
  cancel_found owner (some e) s = (ok true, close_edit owner s)

  unfoldable pub cancel_edit : ℕ → Admin Bool
  cancel_edit owner s = cancel_found owner (lookup edit_key owner s.edits) s

  abbrev pub effective : SettingDefinition L → List (String × Value L) → Value L
  effective d stored = or_else (stored_value d.key stored) d.default

  abbrev pub effective_of : Option (SettingDefinition L) → Admin (Value L)
  effective_of none s = (err AdminError.unknown_setting, s)
  effective_of (some d) s = (ok (effective d s.stored), s)

  unfoldable pub get_setting_effective : String → Admin (Value L)
  get_setting_effective key = effective_of (get_setting_definition L key)

  abbrev pub expect_kind : String → OwnerEditSession → Admin OwnerEditSession
  expect_kind kind e =
      if str_eq e.edit_kind kind
      then (validate_edit_target e.edit_kind e.target_key >>= λ _. pure e)
      else raise AdminError.other_edit_kind

  -- `_require_edit_session`.
  unfoldable pub require_edit_session : ℕ → String → Admin OwnerEditSession
  require_edit_session owner kind s =
      (or_raise (lookup edit_key owner s.edits) AdminError.no_edit_session >>= expect_kind kind) s

  abbrev pub audit : ℕ → AuditAction → SettingDefinition L → Value L → Value L → AuditEntry
  audit owner action d old new = record {
    owner_user_id = owner;
    action = action;
    target_key = d.key;
    old_value = old;
    new_value = new;
  }

  abbrev pub result : Bool → SettingDefinition L → Value L → MutationResult
  result changed d v = record { changed = changed; target_key = d.key; value = v }

  -- The parsed value against the one in effect.
  unfoldable pub write_setting : ℕ → SettingDefinition L → Value L → Admin MutationResult
  write_setting owner d v s =
      if same_value L v (effective d s.stored)
      then (ok (result false d v), close_edit owner s)
      else (
        ok (result true d v),
        close_edit owner (record s {
          stored = set_value d.key v s.stored;
          audits = audit owner AuditAction.set d (effective d s.stored) v ∷ s.audits;
        }),
      )

  abbrev pub apply_parsed : ℕ → SettingDefinition L → Option (Value L) → Admin MutationResult
  apply_parsed owner d none s = (err AdminError.invalid_value, s)
  apply_parsed owner d (some v) s = write_setting owner d v s

  abbrev pub apply_to : ℕ → String → Option (SettingDefinition L) → Admin MutationResult
  apply_to owner raw none s = (err AdminError.unknown_setting, s)
  apply_to owner raw (some d) s = apply_parsed owner d (parse_setting L d.rule raw) s

  unfoldable pub apply_setting_edit : ℕ → String → Admin MutationResult
  apply_setting_edit owner raw = transaction (do
    e ← require_edit_session owner "setting"
    apply_to owner raw (get_setting_definition L e.target_key))

  abbrev pub reset_found : ℕ → SettingDefinition L → Option (Value L) → Admin MutationResult
  reset_found owner d none s = (ok (result false d d.default), s)
  reset_found owner d (some old) s =
      let kept = record s { stored = delete_value d.key s.stored } in
      if same_value L old d.default then (ok (result false d d.default), kept) else (
        ok (result true d d.default),
        record kept { audits = audit owner AuditAction.reset d old d.default ∷ s.audits },
      )

  abbrev pub reset_to : ℕ → Option (SettingDefinition L) → Admin MutationResult
  reset_to owner none s = (err AdminError.unknown_setting, s)
  reset_to owner (some d) s = reset_found owner d (stored_value d.key s.stored) s

  unfoldable pub reset_setting : ℕ → String → Admin MutationResult
  reset_setting owner key = transaction (reset_to owner (get_setting_definition L key))
