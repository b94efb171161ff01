-- ===== src/Rewards/Methods.antt =====
-- Every method of the reward service keeps the invariant, whether it returns or raises.
use cine_gate.Base.{
  ℕ, ◌≡◌, refl, inl, inr, ◌==◌, is_some, is_none, true, ◌&&◌, ◌||◌, Option, none, some,
  Option-cases, Bool-cases, lookup, All-lookup, lookup-key, All-select_first, lookup-select_first,
}
use mathlib.Core.Path.{subst, sym}
use cine_gate.Models.{RewardSession, Database}
use cine_gate.Rewards.Rows.{reward_key, put_reward}
use cine_gate.Rewards.{
  expire_overdue, holds_slot, newest_first, select_reward, select_active, client_complete,
  provider_confirm, claim_holds, get, claim_prompt, complete_prompt, reset_prompt_claim,
  mark_client_completed, mark_provider_confirmed,
}
use cine_gate.Rewards.Access.{require_current_cases, require_own_cases}
use cine_gate.Rewards.Invariant.{
  RewardOk, Inv, put_reward-Inv, expire_overdue-Inv, client_complete-RewardOk,
  provider_confirm-RewardOk, client_complete-holds_slot, client_complete-id, provider_confirm-id,
  provider_confirm-holds_slot,
}

module _ (now id : ℕ) (s : Database) (v : Inv s) where
  pub found_ok : (r : RewardSession) → select_reward id s ≡ some r → RewardOk r
  found_ok r e = All-lookup reward_key RewardOk id s.rewards r v.rows e

  pub found_key :
      (r : RewardSession) → select_reward id s ≡ some r → lookup reward_key r.id s.rewards ≡ some r
  found_key r e =
      subst (λ k. lookup reward_key k s.rewards ≡ some r)
        (sym (lookup-key reward_key id s.rewards r e)) e

  -- A row found under the key is written back with the same key and columns that agree.
  put_found-Inv :
      (r old : RewardSession)
      → select_reward id s ≡ some old
      → r.id ≡ old.id
      → RewardOk r
      → ((user : ℕ) → holds_slot user r ≡ true → holds_slot user old ≡ true)
      → Inv (put_reward r s)
  put_found-Inv r old e same o slot = put_reward-Inv s r old v (found_key old e) same o slot

  pub get-Inv : Inv (get now id s).1
  unfolding get
  get-Inv = elim (require_current_cases now id s) [
    | inl (x, t, e) ↦ rw (e, get) v
    | inr (r, at, e) ↦ rw (e, get) v
  ]

  pub mark_client_completed-Inv : (user : ℕ) → Inv (mark_client_completed now id user s).1
  unfolding mark_client_completed
  mark_client_completed-Inv user = elim (require_own_cases now id user s) [
    | inl (x, t, e) ↦ rw (e, mark_client_completed) v
    | inr (r, at, own, e) ↦
        rw (e, mark_client_completed)
          (put_found-Inv (client_complete now r) r at.0 (client_complete-id now r)
            (client_complete-RewardOk now r (found_ok r at.0))
            (client_complete-holds_slot now r (found_ok r at.0) at.1))
  ]

  -- The columns of the prompt are free.
  prompt-Inv :
      (r : RewardSession) (message claimed : Option ℕ)
      → select_reward id s ≡ some r
      → Inv (put_reward (record r { prompt_message_id = message; prompt_claimed_at = claimed }) s)
  prompt-Inv r message claimed e =
      put_found-Inv (record r { prompt_message_id = message; prompt_claimed_at = claimed }) r e refl
        (let o = found_ok r e in
          record { earned = o.earned; set_aside = o.set_aside; retained = o.retained })
        (λ u h. h)

  pub claim_prompt-Inv : (user : ℕ) → Inv (claim_prompt now id user s).1
  unfolding claim_prompt
  claim_prompt-Inv user = elim (require_own_cases now id user s) [
    | inl (x, t, e) ↦ rw (e, claim_prompt) v
    | inr (r, at, own, e) ↦
        elim (Bool-cases (is_some r.prompt_message_id || claim_holds now r.prompt_claimed_at)) [
          | inl held ↦ rw (e, claim_prompt, held) v
          | inr free ↦ rw (e, claim_prompt, free) (prompt-Inv r r.prompt_message_id (some now) at.0)
        ]
  ]

  pub complete_prompt-Inv : (user message : ℕ) → Inv (complete_prompt now id user message s).1
  unfolding complete_prompt
  complete_prompt-Inv user message = elim (require_own_cases now id user s) [
    | inl (x, t, e) ↦ rw (e, complete_prompt) v
    | inr (r, at, own, e) ↦ elim (Option-cases r.prompt_message_id) [
      | inl free ↦ rw (e, complete_prompt, free) (prompt-Inv r (some message) none at.0)
      | inr (m, taken) ↦ rw (e, complete_prompt, taken) v
    ]
  ]

  pub reset_prompt_claim-Inv : (user : ℕ) → Inv (reset_prompt_claim id user s).1
  unfolding reset_prompt_claim
  reset_prompt_claim-Inv user = elim (Option-cases (select_reward id s)) [
    | inl e ↦ rw (e, reset_prompt_claim) v
    | inr (r, e) ↦ elim (Bool-cases (r.telegram_user_id == user && is_none r.prompt_message_id)) [
      | inl f ↦ rw (e, reset_prompt_claim, f) (prompt-Inv r r.prompt_message_id none e)
      | inr f ↦ rw (e, reset_prompt_claim, f) v
    ]
  ]

-- The row that is selected for the user's slot.
module _ (user : ℕ) (s : Database) (v : Inv s) (r : RewardSession)
    (e : select_active user s ≡ some r) where
  pub active_ok : RewardOk r × (holds_slot user r ≡ true)
  unfolding select_active
  active_ok = All-select_first RewardOk newest_first (holds_slot user) s.rewards r v.rows e

  pub active_key : lookup reward_key r.id s.rewards ≡ some r
  unfolding select_active
  active_key = lookup-select_first reward_key newest_first (holds_slot user) s.rewards r v.unique e

pub mark_provider_confirmed-Inv :
    (now user : ℕ) (s : Database) → Inv s → Inv (mark_provider_confirmed now user s).1
unfolding mark_provider_confirmed
mark_provider_confirmed-Inv now user s v =
    let t = expire_overdue now user s in
    let w : Inv t = expire_overdue-Inv now user s v in
    elim (Option-cases (select_active user t)) [
      | inl e ↦ rw (e, mark_provider_confirmed) w
      | inr (r, e) ↦
          let a = active_ok user t w r e in
          rw (e, mark_provider_confirmed)
            (put_reward-Inv t (provider_confirm now r) r w (active_key user t w r e)
              (provider_confirm-id now r) (provider_confirm-RewardOk now r a.0)
              (λ u. provider_confirm-holds_slot now r a.0 u user a.1))
    ]
