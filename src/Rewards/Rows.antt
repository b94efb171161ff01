-- ===== src/Rewards/Rows.antt =====
-- The rows of reward sessions: the statuses, the functions of services/reward_sessions.py on one
-- row, services/reward_availability.py and domain/rewards.py.
use cine_gate.Base.{
  ℕ, ◌==◌, str_eq, if◌then◌else◌, or_else, Bool, true, false, not, ◌||◌, String, Option, none, some,
  Exec, put,
}
use cine_gate.Models.{
  Movie, MovieStatus, MovieQuality, RewardSession, RewardStatus, UnavailableReason,
  archive_binding_missing, archive_binding_changed, archive_movie_unsafe, archive_quality_unsafe,
  Database, clamp, ℤ,
}

pub record RewardSessionView : Type 0 where
  pub id : ℕ
  pub telegram_user_id : ℕ
  pub movie_id : ℕ
  pub movie_quality_id : ℕ
  pub quality : String
  pub status : RewardStatus
  pub expires_at : ℕ
  pub prompt_message_id : Option ℕ
  pub client_completed_at : Option ℕ
  pub provider_confirmed_at : Option ℕ

-- The exceptions of domain/rewards.py, and the TypeError of a setting that is no integer.
pub data RewardError : Type 0 where
  session_not_found session_expired user_mismatch quality_unavailable setting_type_error :
      RewardError
  active_conflict : RewardSessionView → RewardError

abbrev pub Tx : Type 0 → Type 0
Tx = Exec Database RewardError

-- `status in _ACTIVE_STATUSES`.
unfoldable pub is_active_status : RewardStatus → Bool
is_active_status RewardStatus.pending = true
is_active_status RewardStatus.client_completed = true
is_active_status RewardStatus.provider_confirmed = true
is_active_status RewardStatus.rewarded = true
is_active_status RewardStatus.delivering = true
is_active_status _ = false

-- `status in _EXPIRABLE_STATUSES`.
unfoldable pub is_expirable : RewardStatus → Bool
is_expirable RewardStatus.pending = true
is_expirable RewardStatus.client_completed = true
is_expirable RewardStatus.provider_confirmed = true
is_expirable _ = false

unfoldable pub is_rewarded_status : RewardStatus → Bool
is_rewarded_status RewardStatus.rewarded = true
is_rewarded_status _ = false

unfoldable pub is_expired_status : RewardStatus → Bool
is_expired_status RewardStatus.expired = true
is_expired_status _ = false

-- `RewardSessionView.is_rewarded`.
unfoldable pub is_rewarded : RewardStatus → Bool
is_rewarded RewardStatus.rewarded = true
is_rewarded RewardStatus.unavailable = true
is_rewarded RewardStatus.delivering = true
is_rewarded RewardStatus.delivered = true
is_rewarded _ = false

unfoldable pub view : RewardSession → RewardSessionView
view r = record {
  id = r.id;
  telegram_user_id = r.telegram_user_id;
  movie_id = r.movie_id;
  movie_quality_id = r.movie_quality_id;
  quality = r.quality;
  status = r.status;
  expires_at = r.expires_at;
  prompt_message_id = r.prompt_message_id;
  client_completed_at = r.client_completed_at;
  provider_confirmed_at = r.provider_confirmed_at;
}

abbrev pub reward_key : RewardSession → ℕ
reward_key r = r.id

-- A changed row object, flushed.
abbrev pub put_reward : RewardSession → Database → Database
put_reward r s = record s { rewards = put reward_key r s.rewards }

unfoldable pub is_indexed : MovieStatus → Bool
is_indexed MovieStatus.indexed = true
is_indexed _ = false

abbrev pub movie_key : Movie → ℕ
movie_key m = m.id

abbrev pub quality_key : MovieQuality → ℕ
quality_key q = q.id

-- `availability_reason`; a confidence is never negative.
unfoldable pub availability_reason :
    RewardSession → Option Movie → Option MovieQuality → Option UnavailableReason
availability_reason r none q = some archive_binding_missing
availability_reason r (some m) none = some archive_binding_missing
availability_reason r (some m) (some q) =
    if not (q.movie_id == r.movie_id) || not (str_eq q.quality r.quality)
    then some archive_binding_changed
    else if not (is_indexed m.status)
    then some archive_movie_unsafe
    else if q.parser_confidence == 0
    then some archive_quality_unsafe
    else none

unfoldable pub preserve_unavailable : UnavailableReason → ℕ → RewardSession → RewardSession
preserve_unavailable reason now r = record r {
  status = RewardStatus.unavailable;
  unavailable_at = some (or_else r.unavailable_at now);
  unavailable_reason = some reason;
  delivery_started_at = none;
}

-- `_refresh_reward_status` where the status is not one of delivery.
unfoldable pub status_of_proofs : ℕ → Option ℕ → Option ℕ → RewardSession → RewardSession
status_of_proofs now (some c) (some p) r = record r {
  status = RewardStatus.rewarded;
  rewarded_at = some (or_else r.rewarded_at now);
}
status_of_proofs now (some c) none r = record r { status = RewardStatus.client_completed }
status_of_proofs now none (some p) r = record r { status = RewardStatus.provider_confirmed }
status_of_proofs now none none r = record r { status = RewardStatus.pending }

unfoldable pub in_delivery : RewardStatus → Bool
in_delivery RewardStatus.unavailable = true
in_delivery RewardStatus.delivering = true
in_delivery RewardStatus.delivered = true
in_delivery _ = false

unfoldable pub refresh_reward_status : ℕ → RewardSession → RewardSession
unfolding in_delivery status_of_proofs
refresh_reward_status now r =
    if in_delivery r.status
    then r
    else status_of_proofs now r.client_completed_at r.provider_confirmed_at r

-- `_bounded_session_seconds`.
unfoldable pub bounded_session_seconds : Option ℤ → ℕ
bounded_session_seconds none = 600
bounded_session_seconds (some n) = clamp 60 3600 n
