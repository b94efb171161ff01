-- ===== src/Rewards/Prompt.antt =====
-- The claim of the prompt message of a session.
use cine_gate.Base.{
  ℕ, ◌+◌, ◌<◌, ◌≡◌, ◌≢◌, ◌⊎◌, inl, inr, is_some, true, false, ◌||◌, some, ok, arith, Bool-cases,
  lookup-put, lookup-key,
}
use cine_gate.Models.{seconds, RewardSession, Database}
use cine_gate.Rewards.Rows.{reward_key, put_reward}
use cine_gate.Rewards.{claim_holds, claim_prompt}
use cine_gate.Rewards.Access.{Reached, require_own_cases}
use cine_gate.Rewards.Invariant.{Inv}
use cine_gate.Rewards.Methods.{found_key}

abbrev claimed : ℕ → RewardSession → RewardSession
claimed now r = record r { prompt_claimed_at = some now }

-- A claim either fails with nothing written, or finds the prompt free and takes it.
abbrev Claims : ℕ → ℕ → ℕ → Database → RewardSession → Type 0
Claims now id user s r =
    Reached now s id r
    × ((is_some r.prompt_message_id || claim_holds now r.prompt_claimed_at) ≡ false)
    × (claim_prompt now id user s ≡ (ok true, put_reward (claimed now r) s))

claim_prompt_cases :
    (now id user : ℕ) (s : Database)
    → (((claim_prompt now id user s).0 ≢ ok true) × ((claim_prompt now id user s).1 ≡ s))
      ⊎ ((r : RewardSession) × Claims now id user s r)
unfolding claim_prompt
claim_prompt_cases now id user s = elim (require_own_cases now id user s) [
  | inl (x, t, f) ↦ inl (rw (f, claim_prompt) (λ e. cc), rw (f, claim_prompt))
  | inr (r, at, own, f) ↦
      elim (Bool-cases (is_some r.prompt_message_id || claim_holds now r.prompt_claimed_at)) [
        | inl held ↦
            inl (rw (f, claim_prompt, held) (λ e. ground arith), rw (f, claim_prompt, held))
        | inr free ↦ inr (r, (at, free, rw (f, claim_prompt, free)))
      ]
]

-- In a database that keeps the invariant, directly after a claim on a session that is granted, a
-- claim on it less than 30 seconds later, by any user, is not granted.
pub claim_prompt_exclusive :
    (now later id user other : ℕ) (s : Database)
    → Inv s
    → (claim_prompt now id user s).0 ≡ ok true
    → later < now + seconds 30
    → (claim_prompt later id other (claim_prompt now id user s).1).0 ≢ ok true
unfolding claim_holds
claim_prompt_exclusive now later id user other s i e soon =
    elim (claim_prompt_cases now id user s) [
      | inl (f, _) ↦ absurd (f e)
      | inr (r, (at, free, f)) ↦
          rw f (elim (claim_prompt_cases later id other (put_reward (claimed now r) s)) [
            | inl (g, _) ↦ g
            | inr (q, (again, still_free, g)) ↦
                let same : q ≡ claimed now r = ground (
                  arith,
                  again.0,
                  lookup-put reward_key id (claimed now r) r s.rewards,
                  found_key now id s i r at.0,
                  lookup-key reward_key id s.rewards r at.0,
                ) in
                λ _. ground arith
          ])
    ]
