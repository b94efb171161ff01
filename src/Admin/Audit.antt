-- ===== src/Admin/Audit.antt =====
-- admin/service.py: the audit log against the settings, over one write of a setting.
use cine_gate.Base.{
  ap, ◌∙◌, ℕ, ◌≡◌, inl, inr, refl, arith, true, false, none, some, List, [], ◌∷◌, str_eq, eq_iff,
  if◌then◌else◌, or_else, Bool-cases, Option-cases, Result, Ensures,
}
use cine_gate.Models.{ℤ, pos, negsuc}
use cine_gate.Admin.Values.{
  SettingLibrary, FloatLaws, Value, absent, integer, decimal, text, same_int, same_value,
}
use cine_gate.Admin.Registry.{SettingDefinition}
use cine_gate.Admin.Service.{
  AdminError, AdminTables, AuditEntry, stored_value, set_value, delete_value, effective,
  write_setting, reset_to,
}
use cine_gate.Admin.Bounds.{IsAdmitted, stored_value-set_value, stored_value-delete_value}

same_int-same : (L : SettingLibrary) (m n : ℤ) → same_int L m n ≡ true → m ≡ n
unfolding same_int
same_int-same L (pos m) (pos n) e = let same : m ≡ n = ground arith in ap pos same
same_int-same L (negsuc m) (negsuc n) e = let same : m ≡ n = ground arith in ap negsuc same
same_int-same L (pos m) (negsuc n) e = cc
same_int-same L (negsuc m) (pos n) e = cc

pub same_value-same :
    (L : SettingLibrary) (laws : FloatLaws L) (v w : Value L) → same_value L v w ≡ true → v ≡ w
unfolding same_value
same_value-same L laws absent absent e = refl
same_value-same L laws (integer m) (integer n) e = ap integer (same_int-same L m n e)
same_value-same L laws (decimal x) (decimal y) e = ap decimal (laws.same_same x y e)
same_value-same L laws (text s) (text t) e = ap text ((eq_iff s t).0 e)
same_value-same L laws _ _ e = cc

module _ (L : SettingLibrary) where
  -- The last entry of the log for the setting, or its default.
  unfoldable pub audited : SettingDefinition L → List (AuditEntry L) → Value L
  audited d [] = d.default
  audited d (a ∷ rest) = if str_eq a.target_key d.key then a.new_value else audited d rest

  -- The value in effect is the last one of the log, and a stored value is one the rule admits.
  abbrev pub IsKept : SettingDefinition L → AdminTables L → Type 0
  IsKept d s =
      (audited d s.audits ≡ effective L d s.stored)
      × IsAdmitted L d.rule (stored_value L d.key s.stored)

  abbrev pub Keeps :
      {A : Type 0} → SettingDefinition L → Result AdminError A × AdminTables L → Type 0
  Keeps d r = Ensures (λ a t. IsKept d t) r

  module _ (laws : FloatLaws L) where
    pub write_setting-own :
        (owner : ℕ) (d : SettingDefinition L) (v : Value L) (s : AdminTables L)
        → IsAdmitted L d.rule (some v)
        → IsKept d s
        → Keeps d (write_setting L owner d v s)
    unfolding write_setting audited
    write_setting-own owner d v s fits h =
        let own : str_eq d.key d.key ≡ true = (eq_iff d.key d.key).1 refl in
        let now : stored_value L d.key (set_value L d.key v s.stored) ≡ some v =
          stored_value-set_value L d.key d.key v s.stored
          ∙ ap (λ b. if b then some v else stored_value L d.key s.stored) own in
        elim (Bool-cases (same_value L v (effective L d s.stored))) [
          | inl e ↦ rw (e, Ensures) h
          | inr e ↦ rw (e, Ensures, own, now) (refl, fits)
        ]

    pub write_setting-other :
        (owner : ℕ) (c d : SettingDefinition L) (v : Value L) (s : AdminTables L)
        → str_eq c.key d.key ≡ false
        → IsKept d s
        → Keeps d (write_setting L owner c v s)
    unfolding write_setting audited
    write_setting-other owner c d v s apart h =
        let now : stored_value L d.key (set_value L c.key v s.stored)
            ≡ stored_value L d.key s.stored =
          stored_value-set_value L d.key c.key v s.stored
          ∙ ap (λ b. if b then some v else stored_value L d.key s.stored) apart in
        elim (Bool-cases (same_value L v (effective L c s.stored))) [
          | inl e ↦ rw (e, Ensures) h
          | inr e ↦ rw (e, Ensures, apart, now) h
        ]

    pub reset_found-own :
        (owner : ℕ) (d : SettingDefinition L) (s : AdminTables L)
        → IsKept d s
        → Keeps d (reset_to L owner (some d) s)
    unfolding audited
    reset_found-own owner d s h = elim (Option-cases (stored_value L d.key s.stored)) [
      | inl e ↦ rw (e, Ensures) h
      | inr (old, e) ↦
          let own : str_eq d.key d.key ≡ true = (eq_iff d.key d.key).1 refl in
          let now : stored_value L d.key (delete_value L d.key s.stored) ≡ none =
            stored_value-delete_value L d.key d.key s.stored
            ∙ ap (λ b. if b then none else stored_value L d.key s.stored) own in
          elim (Bool-cases (same_value L old d.default)) [
            | inl f ↦
                let last : audited d s.audits ≡ d.default =
                  h.0 ∙ ap (λ o. or_else o d.default) e ∙ same_value-same L laws old d.default f in
                rw (e, f, Ensures, now) (last, tt)
            | inr f ↦ rw (e, f, Ensures, own, now) (refl, tt)
          ]
    ]

    pub reset_found-other :
        (owner : ℕ) (c d : SettingDefinition L) (s : AdminTables L)
        → str_eq c.key d.key ≡ false
        → IsKept d s
        → Keeps d (reset_to L owner (some c) s)
    unfolding audited
    reset_found-other owner c d s apart h = elim (Option-cases (stored_value L c.key s.stored)) [
      | inl e ↦ rw (e, Ensures) h
      | inr (old, e) ↦
          let now : stored_value L d.key (delete_value L c.key s.stored)
              ≡ stored_value L d.key s.stored =
            stored_value-delete_value L d.key c.key s.stored
            ∙ ap (λ b. if b then none else stored_value L d.key s.stored) apart in
          elim (Bool-cases (same_value L old c.default)) [
            | inl f ↦ rw (e, f, Ensures, now) h
            | inr f ↦ rw (e, f, Ensures, apart, now) h
          ]
    ]
