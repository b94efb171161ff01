-- ===== src/Models.antt =====
-- db/models.py: the rows of the tables that the reward and delivery services share, and the tables
-- together.
--
-- An identifier (of a user, a channel, a message, a row) is a number that is compared for equality
-- only; so is a UUID. A time is a number of microseconds, the precision of `datetime`. The columns
-- `created_at` and `updated_at` stand where a query reads them.
use cine_gate.Base.{
  ℕ, ◌*◌, String, Bool, Option, List, str_eq, if◌then◌else◌, none, some, [], ◌∷◌, max, min, ◌≤◌,
  arith, Exec, pure, raise, ok, err, ◌≡◌, refl, ◌⊎◌, inl, inr,
}

abbrev pub seconds : ℕ → ℕ
seconds n = n * 1000000

pub data MovieStatus : Type 0 where
  pending indexed orphan ambiguous : MovieStatus

pub data ParserStyle : Type 0 where
  modern legacy : ParserStyle

pub record Movie : Type 0 where
  pub id : ℕ
  pub archive_channel_id : ℕ
  pub poster_message_id : ℕ
  pub display_title : String
  pub normalized_title : String
  pub year : Option ℕ
  pub parser_style : ParserStyle
  pub status : MovieStatus
  pub raw_poster_caption : String
  pub parser_confidence : ℕ
  pub owner_notification_message_id : Option ℕ
  pub owner_notification_quality_count : ℕ

pub record MovieQuality : Type 0 where
  pub id : ℕ
  pub movie_id : ℕ
  pub archive_channel_id : ℕ
  pub archive_message_id : ℕ
  pub quality : String
  pub raw_caption : String
  pub extracted_title : Option String
  pub normalized_title : Option String
  pub extracted_year : Option ℕ
  pub parser_confidence : ℕ

pub data RewardStatus : Type 0 where
  pending client_completed provider_confirmed rewarded delivering delivered expired unavailable :
      RewardStatus

pub data UnavailableReason : Type 0 where
  archive_binding_missing archive_binding_changed archive_movie_unsafe archive_quality_unsafe
        archive_source_missing :
      UnavailableReason

pub record RewardSession : Type 0 where
  pub id : ℕ
  pub telegram_user_id : ℕ
  pub movie_id : ℕ
  pub movie_quality_id : ℕ
  pub quality : String
  pub status : RewardStatus
  pub prompt_message_id : Option ℕ
  pub prompt_claimed_at : Option ℕ
  pub created_at : ℕ
  pub expires_at : ℕ
  pub client_completed_at : Option ℕ
  pub provider_confirmed_at : Option ℕ
  pub rewarded_at : Option ℕ
  pub unavailable_at : Option ℕ
  pub unavailable_reason : Option UnavailableReason
  pub delivery_started_at : Option ℕ
  pub delivered_at : Option ℕ

pub data DeliveryStatus : Type 0 where
  pending sending sent deleting deleted delete_failed : DeliveryStatus

pub record Delivery : Type 0 where
  pub id : ℕ
  pub reward_session_id : ℕ
  pub telegram_user_id : ℕ
  pub movie_quality_id : ℕ
  pub status : DeliveryStatus
  pub telegram_message_id : Option ℕ
  pub send_started_at : Option ℕ
  pub sent_at : Option ℕ
  pub delete_at : Option ℕ
  pub next_attempt_at : Option ℕ
  pub delete_started_at : Option ℕ
  pub deleted_at : Option ℕ
  pub attempts : ℕ
  pub last_error : Option String

-- An integer; `negsuc n` is -(n + 1).
pub data ℤ : Type 0 where
  pos : ℕ → ℤ
  negsuc : ℕ → ℤ

-- A JSON value of a setting, as far as the readers of settings tell values apart.
pub data SettingValue : Type 0 where
  integer : ℤ → SettingValue
  boolean : Bool → SettingValue
  null other : SettingValue

pub record Database : Type 0 where
  pub movies : List Movie
  pub qualities : List MovieQuality
  pub rewards : List RewardSession
  pub deliveries : List Delivery
  pub settings : List (String × SettingValue)

-- `SettingsRepository.get(key)`.
unfoldable pub setting : String → List (String × SettingValue) → Option SettingValue
setting key [] = none
setting key ((k, v) ∷ rest) = if str_eq k key then some v else setting key rest

-- `SettingsRepository.get_int(key)`; the error is the TypeError.
unfoldable pub get_int : {S E : Type 0} → E → Option SettingValue → Exec S E (Option ℤ)
get_int e none = pure none
get_int e (some (integer n)) = pure (some n)
get_int e (some (boolean b)) = raise e
get_int e (some null) = pure none
get_int e (some other) = raise e

pub get_int_cases :
    {S E : Type 0} (e : E) (v : Option SettingValue) (s : S)
    → ((n : Option ℤ) × (get_int e v s ≡ (ok n, s))) ⊎ (get_int {S = S} e v s ≡ (err e, s))
unfolding get_int
get_int_cases e none s = inl (none, refl)
get_int_cases e (some (integer n)) s = inl (some n, refl)
get_int_cases e (some (boolean b)) s = inr refl
get_int_cases e (some null) s = inl (none, refl)
get_int_cases e (some other) s = inr refl

-- `max(low, min(high, value))` between natural bounds with `low <= high`.
unfoldable pub clamp : ℕ → ℕ → ℤ → ℕ
clamp low high (pos n) = max low (min high n)
clamp low high (negsuc n) = low

pub clamp_bounds :
    (low high : ℕ) (n : ℤ) → low ≤ high → (low ≤ clamp low high n) × (clamp low high n ≤ high)
unfolding clamp
clamp_bounds low high (pos n) h = ground arith
clamp_bounds low high (negsuc n) h = ground arith
