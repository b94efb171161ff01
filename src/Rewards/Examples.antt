-- ===== src/Rewards/Examples.antt =====
-- The theorems on the reward service at a small database, and tests of its code.
use cine_gate.Base.{
  ◌≡◌, ◌≢◌, refl, some, none, [], ◌∷◌, arith, ok, err, true, lookup, count, update_where,
  select_first,
}
use cine_gate.Models.{
  Movie, MovieQuality, MovieStatus, ParserStyle, RewardSession, RewardStatus, Database, setting,
  get_int,
}
use cine_gate.Rewards.Rows.{
  view, is_rewarded, is_expirable, is_expired_status, is_active_status, in_delivery, is_indexed,
  refresh_reward_status, status_of_proofs, bounded_session_seconds, session_expired,
}
use cine_gate.Rewards.{
  select_reward, holds_slot, get, get_or_create, claim_prompt, mark_client_completed,
  mark_provider_confirmed, client_complete, provider_confirm, new_session, insert_reward,
  select_quality, has_indexed_movie, expire_overdue, select_active, release_unavailable, resolve,
  require_own, require_current, require_user, claim_holds, confirm,
}
use cine_gate.Rewards.Invariant.{RewardOk, Inv}
use cine_gate.Rewards.Confirmation.{
  IsReport, IsConfirmation, mark_client_completed-is_rewarded, mark_client_completed_twice,
  mark_provider_confirmed-is_rewarded,
}
use cine_gate.Rewards.Prompt.{claim_prompt_exclusive}
use cine_gate.Rewards.Binding.{IsBound, get_or_create-IsBound}
use cine_gate.Rewards.Runs.{start, opened, provider_reported, Runs-Inv}

abbrev film : Movie
film = record {
  id = 1;
  archive_channel_id = 100;
  poster_message_id = 10;
  display_title = "Film";
  normalized_title = "film";
  year = some 1999;
  parser_style = ParserStyle.modern;
  status = MovieStatus.indexed;
  raw_poster_caption = "Film 1999";
  parser_confidence = 90;
  owner_notification_message_id = none;
  owner_notification_quality_count = 0;
}

abbrev hd : MovieQuality
hd = record {
  id = 5;
  movie_id = 1;
  archive_channel_id = 100;
  archive_message_id = 11;
  quality = "1080p";
  raw_caption = "Film 1080p";
  extracted_title = none;
  normalized_title = none;
  extracted_year = none;
  parser_confidence = 90;
}

-- A session of user 7 that the provider has not confirmed.
abbrev session : RewardSession
session = record {
  id = 3;
  telegram_user_id = 7;
  movie_id = 1;
  movie_quality_id = 5;
  quality = "1080p";
  status = RewardStatus.pending;
  prompt_message_id = none;
  prompt_claimed_at = none;
  created_at = 0;
  expires_at = 600000000;
  client_completed_at = none;
  provider_confirmed_at = none;
  rewarded_at = none;
  unavailable_at = none;
  unavailable_reason = none;
  delivery_started_at = none;
  delivered_at = none;
}

abbrev empty : Database
empty = record {
  movies = film ∷ [];
  qualities = hd ∷ [];
  rewards = [];
  deliveries = [];
  settings = [];
}

abbrev waiting : Database
waiting = record empty { rewards = session ∷ [] }

empty-Inv : Inv empty
unfolding count
empty-Inv = record { unique = tt; rows = tt; one_active = λ u. omega arith }

session-RewardOk : RewardOk session
unfolding is_rewarded in_delivery
session-RewardOk = ground arith

waiting-Inv : Inv waiting
unfolding count lookup
waiting-Inv = record {
  unique = (refl, tt);
  rows = (session-RewardOk, tt);
  one_active = λ u. ground arith;
}

opened_lem : (get_or_create 0 3 7 1 "1080p" empty) ≡ (ok (view session, true), waiting)
unfolding get_or_create select_quality select_first has_indexed_movie lookup is_indexed
    expire_overdue update_where select_active release_unavailable resolve setting get_int
    new_session insert_reward bounded_session_seconds
opened_lem = refl

-- A session whose time is over is refused, and its row is still pending.
get_expired : get 600000000 3 waiting ≡ (err session_expired, waiting)
unfolding get lookup require_current is_expired_status is_expirable
get_expired = refl

-- A report of user 8 on a session of user 7.
abbrev reported : RewardSession
reported = record session { status = RewardStatus.client_completed; client_completed_at = some 5 }

report_lem : (mark_client_completed 5 3 7 waiting).0 ≡ ok (view reported)
unfolding mark_client_completed lookup require_own require_current require_user is_expired_status
    is_expirable client_complete refresh_reward_status in_delivery status_of_proofs
report_lem = refl

abbrev confirmed : RewardSession
confirmed = record session {
  status = RewardStatus.provider_confirmed;
  provider_confirmed_at = some 5;
}

confirm_lem : (mark_provider_confirmed 5 7 waiting).0 ≡ ok (some (view confirmed))
unfolding mark_provider_confirmed expire_overdue update_where is_expirable select_active
    select_first is_active_status confirm provider_confirm refresh_reward_status in_delivery
    status_of_proofs
confirm_lem = refl

claim_lem : (claim_prompt 5 3 7 waiting).0 ≡ ok true
unfolding claim_prompt lookup require_own require_current require_user is_expired_status
    is_expirable claim_holds
claim_lem = refl

mark_client_completed-is_rewarded_example :
    let t = (mark_client_completed 5 3 7 waiting).1 in
    (r : RewardSession) × (q : RewardSession) × (select_reward 3 waiting ≡ some r)
    × (r.telegram_user_id ≡ 7)
    × (select_reward 3 t ≡ some q)
    × (view reported ≡ view q)
    × IsReport 5 r q
mark_client_completed-is_rewarded_example =
    mark_client_completed-is_rewarded 5 3 7 waiting (view reported) waiting-Inv report_lem

mark_client_completed_twice_example :
    let t = (mark_client_completed 5 3 7 waiting).1 in (mark_client_completed 9 3 7 t).1 ≡ t
mark_client_completed_twice_example =
    mark_client_completed_twice 5 9 3 7 waiting (view reported) waiting-Inv report_lem

mark_provider_confirmed-is_rewarded_example :
    let t = (mark_provider_confirmed 5 7 waiting).1 in
    (r : RewardSession) × (q : RewardSession) × (select_reward 3 waiting ≡ some r)
    × (holds_slot 7 r ≡ true)
    × (select_reward 3 t ≡ some q)
    × (view confirmed ≡ view q)
    × IsConfirmation 5 r q
unfolding view
mark_provider_confirmed-is_rewarded_example =
    mark_provider_confirmed-is_rewarded 5 7 waiting (view confirmed) waiting-Inv confirm_lem

claim_prompt_exclusive_example : (claim_prompt 6 3 8 (claim_prompt 5 3 7 waiting).1).0 ≢ ok true
claim_prompt_exclusive_example =
    claim_prompt_exclusive 5 6 3 7 8 waiting waiting-Inv claim_lem (omega arith)

get_or_create-IsBound_example : IsBound 0 3 7 1 "1080p" (view session) true
unfolding get_or_create select_quality select_first has_indexed_movie lookup is_indexed
    expire_overdue update_where select_active release_unavailable resolve setting get_int
    new_session insert_reward bounded_session_seconds
get_or_create-IsBound_example = get_or_create-IsBound 0 3 7 1 "1080p" empty (view session) true refl

Runs-Inv_example : Inv (mark_provider_confirmed 5 7 (get_or_create 0 3 7 1 "1080p" empty).1).1
unfolding lookup
Runs-Inv_example = Runs-Inv empty-Inv (provider_reported 5 7 (opened 0 3 7 1 "1080p" start refl))
