-- ===== src/Rewards.antt =====
-- services/reward_sessions.py: RewardSessionService.
--
-- Each method is one transaction on the database, at the clock's value `now`. Row locks and the
-- advisory lock of a user make the transactions on one session follow one another, so a run of the
-- service is a sequence of these methods.
pub mod Rows
mod Access
pub mod Invariant
pub mod Methods
pub mod Creation
pub mod Confirmation
pub mod Prompt
pub mod Binding
pub mod Runs
mod Examples
use cine_gate.Base.{
  ℕ, ◌+◌, ◌≡◌, ◌==◌, str_eq, ltb, leb, if◌then◌else◌, is_some, is_none, Bool, true, false, not,
  ◌&&◌, ◌||◌, or_else, String, Option, none, some, List, [], ◌∷◌, Exec, Result, ok, err, pure,
  raise, gets, or_raise, transaction, modify, ◌>>=◌, ◌>>◌, update_where, select_first, lookup,
}
use cine_gate.Models.{
  seconds, Movie, MovieQuality, RewardSession, RewardStatus, Database, setting, get_int, ℤ,
}
use Rows.{
  RewardSessionView, RewardError, session_not_found, session_expired, user_mismatch,
  quality_unavailable, setting_type_error, active_conflict, Tx, is_active_status, is_expirable,
  is_rewarded_status, is_expired_status, view, reward_key, put_reward, is_indexed, movie_key,
  quality_key, availability_reason, preserve_unavailable, refresh_reward_status,
  bounded_session_seconds,
}

-- The sessions of the user whose time for the advertisement is over.
abbrev pub is_overdue : ℕ → ℕ → RewardSession → Bool
is_overdue now user r = r.telegram_user_id == user && is_expirable r.status && leb r.expires_at now

abbrev pub expire : RewardSession → RewardSession
expire r = record r { status = RewardStatus.expired }

pub expire_overdue : ℕ → ℕ → Database → Database
expire_overdue now user s = record s {
  rewards = update_where (is_overdue now user) expire s.rewards;
}

-- The row occupies the user's slot of the index `uq_reward_sessions_active_user`.
abbrev pub holds_slot : ℕ → RewardSession → Bool
holds_slot user r =
    r.telegram_user_id == user && is_active_status r.status && is_none r.unavailable_at

abbrev pub newest_first : RewardSession → RewardSession → Bool
newest_first r s = leb s.created_at r.created_at

abbrev pub oldest_first : RewardSession → RewardSession → Bool
oldest_first r s = leb r.created_at s.created_at

pub select_active : ℕ → Database → Option RewardSession
select_active user s = select_first newest_first (holds_slot user) s.rewards

pub is_retained_status : RewardStatus → Bool
is_retained_status RewardStatus.unavailable = true
is_retained_status RewardStatus.delivering = true
is_retained_status _ = false

abbrev pub is_retained : ℕ → ℕ → MovieQuality → String → RewardSession → Bool
is_retained user movie q quality r =
    r.telegram_user_id == user
    && r.movie_id == movie
    && r.movie_quality_id == q.id
    && str_eq r.quality quality
    && is_retained_status r.status
    && is_some r.unavailable_at

-- The movie of the quality's row is indexed: the join of the first query of `get_or_create`.
pub has_indexed_movie : List Movie → MovieQuality → Bool
has_indexed_movie movies q = elim (lookup movie_key q.movie_id movies) [
  | none ↦ false
  | some m ↦ is_indexed m.status
]

abbrev is_requested : ℕ → String → Database → MovieQuality → Bool
is_requested movie quality s q =
    q.movie_id == movie
    && str_eq q.quality quality
    && ltb 0 q.parser_confidence
    && has_indexed_movie s.movies q

pub select_quality : ℕ → String → Database → Option MovieQuality
unfolding has_indexed_movie
select_quality movie quality s =
    select_first (λ _ _. true) (is_requested movie quality s) s.qualities

-- An active session with a reward is set aside when its movie is no longer available.
pub release_unavailable : ℕ → Option RewardSession → Tx (Option RewardSession)
release_unavailable now none s = (ok none, s)
release_unavailable now (some a) s =
    if is_rewarded_status a.status
    then elim (availability_reason a (lookup movie_key a.movie_id s.movies)
        (lookup quality_key a.movie_quality_id s.qualities)) [
          | none ↦ (ok (some a), s)
          | some reason ↦ (ok none, put_reward (preserve_unavailable reason now a) s)
        ]
    else (ok (some a), s)

-- A new row; `created_at` is the time of the transaction.
pub new_session : ℕ → ℕ → ℕ → ℕ → MovieQuality → ℕ → RewardSession
new_session now id user movie q ttl = record {
  id = id;
  telegram_user_id = user;
  movie_id = movie;
  movie_quality_id = q.id;
  quality = q.quality;
  status = RewardStatus.pending;
  prompt_message_id = none;
  prompt_claimed_at = none;
  created_at = now;
  expires_at = now + seconds ttl;
  client_completed_at = none;
  provider_confirmed_at = none;
  rewarded_at = none;
  unavailable_at = none;
  unavailable_reason = none;
  delivery_started_at = none;
  delivered_at = none;
}

pub insert_reward : RewardSession → Database → Database
insert_reward r s = record s { rewards = r ∷ s.rewards }

-- The end of `get_or_create`: a retained session, the active one, or a new one.
pub resolve :
    ℕ
    → ℕ
    → ℕ
    → ℕ
    → String
    → MovieQuality
    → Option RewardSession
    → Option RewardSession
    → Tx (RewardSessionView × Bool)
unfolding new_session insert_reward
resolve now id user movie quality q (some kept) active = pure (view kept, false)
resolve now id user movie quality q none (some a) =
    if a.movie_id == movie && a.movie_quality_id == q.id && str_eq a.quality quality
    then pure (view a, false)
    else raise (active_conflict (view a))
resolve now id user movie quality q none none = do
  value ← gets (λ s. setting "reward_session_seconds" s.settings)
  ttl ← get_int setting_type_error value
  let row = new_session now id user movie q (bounded_session_seconds ttl)
  modify (insert_reward row)
  pure (view row, true)

-- `id` is the UUID that a new row receives.
pub get_or_create : ℕ → ℕ → ℕ → ℕ → String → Tx (RewardSessionView × Bool)
unfolding select_quality expire_overdue select_active release_unavailable resolve is_retained_status
get_or_create now id user movie quality = transaction (do
  selected ← gets (select_quality movie quality)
  q ← or_raise selected quality_unavailable
  modify (expire_overdue now user)
  candidate ← gets (select_active user)
  active ← release_unavailable now candidate
  kept ← gets (λ s. select_first oldest_first (is_retained user movie q quality) s.rewards)
  resolve now id user movie quality q kept active)

abbrev pub select_reward : ℕ → Database → Option RewardSession
select_reward id s = lookup reward_key id s.rewards

-- The assignment of `expired` precedes the raise, and the transaction takes it back.
pub require_current : ℕ → Option RewardSession → Tx RewardSession
require_current now none = raise session_not_found
require_current now (some r) =
    if is_expired_status r.status
    then raise session_expired
    else if is_expirable r.status && leb r.expires_at now
    then (λ s. (err session_expired, put_reward (expire r) s))
    else pure r

pub require_user : RewardSession → ℕ → Tx (Unit {0})
require_user r user = if r.telegram_user_id == user then pure tt else raise user_mismatch

-- The row under the key, current and of the user.
pub require_own : ℕ → ℕ → ℕ → Tx RewardSession
unfolding require_current require_user
require_own now id user = do
  found ← gets (select_reward id)
  r ← require_current now found
  require_user r user
  pure r

-- `get`.
pub get : ℕ → ℕ → Tx RewardSessionView
unfolding require_current
get now id =
    transaction (do found ← gets (select_reward id); r ← require_current now found; pure (view r))

-- The prompt is claimed, and the claim is younger than 30 seconds.
pub claim_holds : ℕ → Option ℕ → Bool
claim_holds now none = false
claim_holds now (some t) = ltb now (t + seconds 30)

pub claim_prompt : ℕ → ℕ → ℕ → Tx Bool
unfolding require_own claim_holds
claim_prompt now id user = transaction (do
  r ← require_own now id user
  if is_some r.prompt_message_id || claim_holds now r.prompt_claimed_at
      then pure false
      else do modify (put_reward (record r { prompt_claimed_at = some now })); pure true)

finish_prompt : ℕ → RewardSession → Option ℕ → Tx Bool
finish_prompt message r (some m) = pure (m == message)
finish_prompt message r none = do
  modify (put_reward (record r { prompt_message_id = some message; prompt_claimed_at = none }))
  pure true

pub complete_prompt : ℕ → ℕ → ℕ → ℕ → Tx Bool
unfolding require_own finish_prompt
complete_prompt now id user message =
    transaction (do r ← require_own now id user; finish_prompt message r r.prompt_message_id)

release_claim : ℕ → Option RewardSession → Database → Database
release_claim user none s = s
release_claim user (some r) s =
    if r.telegram_user_id == user && is_none r.prompt_message_id
    then put_reward (record r { prompt_claimed_at = none }) s
    else s

pub reset_prompt_claim : ℕ → ℕ → Tx (Unit {0})
unfolding release_claim
reset_prompt_claim id user = transaction (λ s. (ok tt, release_claim user (select_reward id s) s))

-- The row once the client has reported the end of the advertisement.
pub client_complete : ℕ → RewardSession → RewardSession
client_complete now r =
    refresh_reward_status now
      (record r { client_completed_at = some (or_else r.client_completed_at now) })

-- The row once the provider has confirmed the advertisement.
pub provider_confirm : ℕ → RewardSession → RewardSession
provider_confirm now r =
    refresh_reward_status now
      (record r { provider_confirmed_at = some (or_else r.provider_confirmed_at now) })

pub mark_client_completed : ℕ → ℕ → ℕ → Tx RewardSessionView
unfolding require_own client_complete
mark_client_completed now id user = transaction (do
  r ← require_own now id user
  modify (put_reward (client_complete now r))
  pure (view (client_complete now r)))

pub confirm : ℕ → Option RewardSession → Tx (Option RewardSessionView)
confirm now none = pure none
confirm now (some r) = do
  modify (put_reward (provider_confirm now r))
  pure (some (view (provider_confirm now r)))

pub mark_provider_confirmed : ℕ → ℕ → Tx (Option RewardSessionView)
unfolding expire_overdue select_active confirm provider_confirm
mark_provider_confirmed now user =
    transaction
      (do modify (expire_overdue now user); active ← gets (select_active user); confirm now active)
