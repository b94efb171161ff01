-- ===== src/Rewards/Runs.antt =====
-- The methods of the reward service in any order.
use cine_gate.Base.{ℕ, ◌≡◌, none, String, lookup}
use cine_gate.Models.{Database}
use cine_gate.Rewards.Rows.{reward_key}
use cine_gate.Rewards.{
  get, get_or_create, claim_prompt, complete_prompt, reset_prompt_claim, mark_client_completed,
  mark_provider_confirmed,
}
use cine_gate.Rewards.Invariant.{Inv}
use cine_gate.Rewards.Methods.{
  get-Inv, mark_client_completed-Inv, claim_prompt-Inv, complete_prompt-Inv, reset_prompt_claim-Inv,
  mark_provider_confirmed-Inv,
}
use cine_gate.Rewards.Creation.{get_or_create-Inv}

-- The databases that runs of the service reach from `s`, at any times: a method that raises included.
-- A new row has a key that is not in the table, as `uuid4` gives one.
pub data Runs (s : Database) : Database → Type 0 where
  start : Runs s s
  opened :
      (now id user movie : ℕ) (quality : String) {t : Database}
      → Runs s t
      → lookup reward_key id t.rewards ≡ none
      → Runs s (get_or_create now id user movie quality t).1
  read : (now id : ℕ) {t : Database} → Runs s t → Runs s (get now id t).1
  prompt_claimed :
      (now id user : ℕ) {t : Database} → Runs s t → Runs s (claim_prompt now id user t).1
  prompt_completed :
      (now id user message : ℕ) {t : Database}
      → Runs s t
      → Runs s (complete_prompt now id user message t).1
  prompt_released :
      (id user : ℕ) {t : Database} → Runs s t → Runs s (reset_prompt_claim id user t).1
  client_reported :
      (now id user : ℕ) {t : Database} → Runs s t → Runs s (mark_client_completed now id user t).1
  provider_reported :
      (now user : ℕ) {t : Database} → Runs s t → Runs s (mark_provider_confirmed now user t).1

-- From a database that keeps the invariant, every run of the methods of the reward service, raising
-- or not, ends in one that keeps it: keys are unique, rewards rest on both confirmations, what was
-- set aside was earned, and no user has two active sessions.
pub Runs-Inv : {s t : Database} → Inv s → Runs s t → Inv t
Runs-Inv v start = v
Runs-Inv v (opened now id user movie quality {t} h fresh) =
    get_or_create-Inv now id user movie quality t (Runs-Inv v h) fresh
Runs-Inv v (read now id {t} h) = get-Inv now id t (Runs-Inv v h)
Runs-Inv v (prompt_claimed now id user {t} h) = claim_prompt-Inv now id t (Runs-Inv v h) user
Runs-Inv v (prompt_completed now id user message {t} h) =
    complete_prompt-Inv now id t (Runs-Inv v h) user message
Runs-Inv v (prompt_released id user {t} h) = reset_prompt_claim-Inv 0 id t (Runs-Inv v h) user
Runs-Inv v (client_reported now id user {t} h) =
    mark_client_completed-Inv now id t (Runs-Inv v h) user
Runs-Inv v (provider_reported now user {t} h) =
    mark_provider_confirmed-Inv now user t (Runs-Inv v h)
