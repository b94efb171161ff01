-- ===== src/Delivery/Examples.antt =====
-- The theorems on the sending of a reward at a small database, and tests of its code.
use cine_gate.Base.{◌≡◌, refl, some, none, [], ◌∷◌, arith, ok, lookup, count, put, truncate, ◌+◌}
use cine_gate.Models.{
  seconds, Movie, MovieQuality, MovieStatus, ParserStyle, RewardSession, RewardStatus, Delivery,
  DeliveryStatus, Database, setting, integer, pos, clamp,
}
use cine_gate.Rewards.{select_reward}
use cine_gate.Rewards.Rows.{is_rewarded, in_delivery, is_indexed, availability_reason}
use cine_gate.Rewards.Invariant.{RewardOk}
use cine_gate.Delivery.Rows.{
  Render, PreparedDelivery, prepared, finished, delivered, processing, simple_result,
  DeliveryResult, begin_send, ensure_delivery, new_delivery, start_sending, start_delivering,
  bounded_delete_seconds,
}
use cine_gate.Delivery.{
  prepare, prepare_by_status, prepare_ready, prepare_checked, prepare_available, finalize_sent,
  reset_failed_send, select_delivery_of,
}
use cine_gate.Delivery.Invariant.{IsConsistent}
use cine_gate.Delivery.Preparing.{prepare-IsConsistent}
use cine_gate.Delivery.Preparing.{IsSource}
use cine_gate.Delivery.Sending.{IsPrepared, prepare-IsPrepared}
use cine_gate.Delivery.Outcomes.{prepare_exclusive, finalize_sent_once, reset_failed_send_back}

abbrev film : Movie
film = record {
  id = 1;
  archive_channel_id = 100;
  poster_message_id = 10;
  display_title = "Film";
  normalized_title = "film";
  year = some 1999;
  parser_style = ParserStyle.modern;
  status = MovieStatus.indexed;
  raw_poster_caption = "Film 1999";
  parser_confidence = 90;
  owner_notification_message_id = none;
  owner_notification_quality_count = 0;
}

abbrev hd : MovieQuality
hd = record {
  id = 5;
  movie_id = 1;
  archive_channel_id = 100;
  archive_message_id = 11;
  quality = "1080p";
  raw_caption = "Film 1080p";
  extracted_title = none;
  normalized_title = none;
  extracted_year = none;
  parser_confidence = 90;
}

-- A session of user 7 that has both confirmations.
abbrev earned : RewardSession
earned = record {
  id = 3;
  telegram_user_id = 7;
  movie_id = 1;
  movie_quality_id = 5;
  quality = "1080p";
  status = RewardStatus.rewarded;
  prompt_message_id = none;
  prompt_claimed_at = none;
  created_at = 0;
  expires_at = 600000000;
  client_completed_at = some 1;
  provider_confirmed_at = some 2;
  rewarded_at = some 2;
  unavailable_at = none;
  unavailable_reason = none;
  delivery_started_at = none;
  delivered_at = none;
}

abbrev shop : Database
shop = record {
  movies = film ∷ [];
  qualities = hd ∷ [];
  rewards = earned ∷ [];
  deliveries = [];
  settings = ("movie_delete_seconds", integer (pos 60)) ∷ [];
}

earned-RewardOk : RewardOk earned
unfolding is_rewarded in_delivery
earned-RewardOk = ground arith

shop-IsConsistent : IsConsistent shop
unfolding count lookup
shop-IsConsistent = record {
  rewards = record {
    unique = (refl, tt);
    rows = (earned-RewardOk, tt);
    one_active = λ u. ground arith;
  };
  unique = tt;
  one_each = tt;
  rows = tt;
}

abbrev render : Render
render s m q n = some "Film"

abbrev request : PreparedDelivery
request = record {
  delivery_id = 9;
  telegram_user_id = 7;
  archive_channel_id = 100;
  archive_message_id = 11;
  caption = "Film";
  delete_seconds = 60;
}

abbrev sending_now : Delivery
sending_now = record {
  id = 9;
  reward_session_id = 3;
  telegram_user_id = 7;
  movie_quality_id = 5;
  status = DeliveryStatus.sending;
  telegram_message_id = none;
  send_started_at = some 20;
  sent_at = none;
  delete_at = none;
  next_attempt_at = none;
  delete_started_at = none;
  deleted_at = none;
  attempts = 0;
  last_error = none;
}

abbrev busy : Database
busy = record shop {
  rewards =
      (record earned { status = RewardStatus.delivering; delivery_started_at = some 20 }) ∷ [];
  deliveries = sending_now ∷ [];
}

prepare_lem : prepare render 20 9 3 shop ≡ (ok (prepared request), busy)
unfolding prepare lookup prepare_by_status prepare_ready prepare_checked prepare_available
    availability_reason is_indexed begin_send ensure_delivery new_delivery start_sending
    start_delivering bounded_delete_seconds clamp setting put
prepare_lem = refl

shop-fresh : lookup (λ (d : Delivery). d.id) 9 shop.deliveries ≡ none
unfolding lookup
shop-fresh = refl

prepare-IsConsistent_example : IsConsistent (prepare render 20 9 3 shop).1
prepare-IsConsistent_example = prepare-IsConsistent render 20 9 3 shop shop-IsConsistent shop-fresh

prepare-IsPrepared_example :
    (r : RewardSession) × (d : Delivery) × (select_reward 3 shop ≡ some r)
    × IsPrepared 20 9 3 shop r d request busy
prepare-IsPrepared_example =
    prepare-IsPrepared render 20 9 3 shop shop-IsConsistent shop-fresh request busy prepare_lem

prepare_exclusive_example :
    prepare render 21 10 3 busy ≡ (ok (finished (simple_result processing)), busy)
prepare_exclusive_example =
    prepare_exclusive render 20 9 3 shop shop-IsConsistent shop-fresh request busy prepare_lem 21 10

finalize_sent_once_example :
    let result = finalize_sent 30 3 9 77 60 busy in
    let answer : DeliveryResult = record {
      status = delivered;
      telegram_message_id = some 77;
      delete_at = some (30 + seconds 60);
    } in
    (result.0 ≡ ok answer) × (prepare render 40 10 3 result.1 ≡ (ok (finished answer), result.1))
finalize_sent_once_example =
    finalize_sent_once render 20 9 3 shop shop-IsConsistent shop-fresh request busy prepare_lem 30
      77 40 10

reset_failed_send_back_example :
    let u = (reset_failed_send 30 3 9 "timeout" none busy).1 in
    (r : RewardSession) × (d : Delivery) × (select_reward 3 shop ≡ some r)
    × IsSource 9 3 shop d
    × (select_reward 3 u ≡ some (record r { delivery_started_at = none }))
    × (select_delivery_of 3 u
        ≡ some (record d {
          status = DeliveryStatus.pending;
          send_started_at = none;
          attempts = d.attempts + 1;
          last_error = some (truncate 1000 "timeout");
        }))
reset_failed_send_back_example =
    reset_failed_send_back render 20 9 3 shop shop-IsConsistent shop-fresh request busy prepare_lem
      30 "timeout"
