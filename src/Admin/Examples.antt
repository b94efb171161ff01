-- ===== src/Admin/Examples.antt =====
-- The theorems on the settings at an edit of the deletion time, and tests of the code.
use cine_gate.Base.{
  ℕ, ◌==◌, ==_iff, leb, ◌≡◌, refl, true, false, ◌&&◌, Option, none, some, [], ◌∷◌, String, str_eq,
  if◌then◌else◌, ok, lookup,
}
use cine_gate.Models.{pos, setting}
use cine_gate.Delivery.Rows.{bounded_delete_seconds}
use cine_gate.Admin.Values.{SettingLibrary, FloatLaws, integer, parse_setting, same_value}
use cine_gate.Admin.Registry.{find_definition}
use cine_gate.Admin.Service.{
  AdminTables, MutationResult, begin_edit, apply_setting_edit, require_edit_session,
  validate_edit_target, write_setting, delete_edit, get_setting_effective, effective, AuditAction,
  stored_value, set_value,
}
use cine_gate.Admin.Audit.{audited, IsKept}
use cine_gate.Admin.Runs.{AdminRuns, start, begun, applied, AdminRuns-IsKept}
use cine_gate.Admin.Effects.{apply_setting_edit-effective}
use cine_gate.Admin.Readers.{
  as_settings, delete_definition, session_definition, Reads, AdminRuns-bounded_delete_seconds,
  AdminRuns-Reads,
}

-- A library that reads two texts; its floats are hundredths.
abbrev two_minutes : String → Option (ℕ × Option String)
two_minutes t = if str_eq t "2m" then some (2, some "m") else none

abbrev library : SettingLibrary
library = record {
  Float = ℕ;
  same_float = λ x y. x == y;
  is_within = λ low high x. leb low x && leb x high;
  round_float = λ x. x;
  hundredths = λ x. x;
  strip = λ t. t;
  strip_slashes = λ t. t;
  read_int = λ t. if str_eq t "7" then some (pos 7) else none;
  read_float = λ t. none;
  match_duration = two_minutes;
  is_block_id = λ t. false;
  split_url = λ t. record {
    scheme = t;
    hostname = "";
    username = "";
    password = "";
    query = "";
    fragment = "";
  };
}

abbrev laws : FloatLaws library
laws = record { round_within = λ low high x h. h; same_same = λ x y h. (==_iff x y).0 h }

abbrev empty : AdminTables library
empty = record { stored = []; edits = []; audits = [] }

abbrev after_edit : AdminTables library
after_edit =
    (apply_setting_edit library 7 "2m"
      (begin_edit library 7 "setting" "movie_delete_seconds" empty).1).1

abbrev edit : AdminRuns library empty after_edit
edit = applied 7 "2m" (begun 7 "setting" "movie_delete_seconds" start)

empty-IsKept : IsKept library (delete_definition library) empty
unfolding audited stored_value
empty-IsKept = (refl, tt)

AdminRuns-IsKept_example : IsKept library (delete_definition library) after_edit
unfolding find_definition
AdminRuns-IsKept_example =
    AdminRuns-IsKept library laws "movie_delete_seconds" (delete_definition library) refl
      empty-IsKept edit

AdminRuns-bounded_delete_seconds_example :
    effective library (delete_definition library) after_edit.stored
    ≡ integer (
        pos (
          bounded_delete_seconds
            (setting "movie_delete_seconds" (as_settings library after_edit.stored))))
AdminRuns-bounded_delete_seconds_example =
    AdminRuns-bounded_delete_seconds library laws empty-IsKept edit

session-IsKept : IsKept library (session_definition library) empty
unfolding audited stored_value
session-IsKept = (refl, tt)

AdminRuns-Reads_example :
    Reads library
      (setting "reward_session_seconds" (as_settings library after_edit.stored))
      (effective library (session_definition library) after_edit.stored)
AdminRuns-Reads_example = AdminRuns-Reads library laws session-IsKept edit

-- An edit of the number of results, from 6 to 7.
abbrev opened : AdminTables library
opened = record {
  stored = [];
  edits =
      record { owner_user_id = 7; edit_kind = "setting"; target_key = "search_result_limit" } ∷ [];
  audits = [];
}

abbrev edited : AdminTables library
edited = record {
  stored = ("search_result_limit", integer (pos 7)) ∷ [];
  edits = [];
  audits =
      record {
        owner_user_id = 7;
        action = AuditAction.set;
        target_key = "search_result_limit";
        old_value = integer (pos 6);
        new_value = integer (pos 7);
      }
      ∷ [];
}

abbrev outcome : MutationResult library
outcome = record { changed = true; target_key = "search_result_limit"; value = integer (pos 7) }

applied_once : apply_setting_edit library 7 "7" opened ≡ (ok outcome, edited)
unfolding apply_setting_edit require_edit_session validate_edit_target find_definition parse_setting
    write_setting stored_value set_value same_value delete_edit lookup
applied_once = refl

apply_setting_edit-effective_example :
    get_setting_effective library "search_result_limit" edited ≡ (ok (integer (pos 7)), edited)
apply_setting_edit-effective_example =
    apply_setting_edit-effective library laws 7 "7" opened edited outcome applied_once
