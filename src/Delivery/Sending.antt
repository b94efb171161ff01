-- ===== src/Delivery/Sending.antt =====
-- What `_prepare` has done when it hands a delivery to the Bot API, and what the two ends of the
-- send make of it.
use mathlib.Core.Path.{◌∙◌, subst}
use cine_gate.Base.{
  ℕ, ◌≤◌, ◌≡◌, refl, inl, inr, Option, none, some, ok, err, arith, Option-cases, String, Result,
  lookup, lookup-put, lookup-key, lookup-lookup, lookup-put_other, roll_back,
}
use cine_gate.Models.{
  RewardSession, RewardStatus, Movie, MovieQuality, Delivery, DeliveryStatus, Database,
  SettingValue, integer, setting, clamp_bounds,
}
use cine_gate.Rewards.{select_reward}
use cine_gate.Rewards.Rows.{reward_key, put_reward, availability_reason, movie_key, quality_key}
use cine_gate.Rewards.Methods.{found_key}
use cine_gate.Delivery.Rows.{
  Render, Preparation, PreparedDelivery, DeliveryResult, prepared, finished, DeliveryError,
  delivery_key, session_key, put_delivery, start_sending, start_delivering, begin_send,
  bounded_delete_seconds,
}
use cine_gate.Delivery.{
  prepare_available, prepare_ready, prepare_by_status, prepare, select_delivery_of, select_delivery,
}
use cine_gate.Delivery.Invariant.{IsConsistent, IsReady}
use cine_gate.Delivery.Preparing.{IsSource, ensure_delivery_lem}

pub bounded_delete_seconds_bounds :
    (v : Option SettingValue) → (5 ≤ bounded_delete_seconds v) × (bounded_delete_seconds v ≤ 172000)
unfolding bounded_delete_seconds
bounded_delete_seconds_bounds (some (integer n)) = clamp_bounds 5 172000 n (omega arith)
bounded_delete_seconds_bounds _ = omega arith

-- A step that does not go on to the copy is none that does.
abbrev pub Step : Type 0
Step = Result DeliveryError Preparation × Database

finished_not_prepared :
    (x : DeliveryResult) (p : PreparedDelivery) (s t : Database)
    → ◌≡◌ {A = Step} (ok (finished x), s) (ok (prepared p), t)
    → ⊥
finished_not_prepared x p s t f = cc

error_not_prepared :
    (e : DeliveryError) (p : PreparedDelivery) (s t : Database)
    → ◌≡◌ {A = Step} (err e, s) (ok (prepared p), t)
    → ⊥
error_not_prepared e p s t f = cc

prepared_same :
    (p q : PreparedDelivery) (s t : Database)
    → ◌≡◌ {A = Step} (ok (prepared q), s) (ok (prepared p), t)
    → (p ≡ q) × (t ≡ s)
prepared_same p q s t f = (cc, cc)

-- The rows in the tables `t` after a preparation that goes on to the copy: `r` and `d` are the
-- reward and the delivery as the preparation found or made them in the tables `s`.
pub record IsPrepared (now new_id id : ℕ) (s : Database) (r : RewardSession) (d : Delivery)
    (p : PreparedDelivery) (t : Database) : Type 0 where
  pub source : IsSource new_id id s d
  pub ready : IsReady r
  pub same_reward : r.id ≡ id
  pub of_reward : d.reward_session_id ≡ id
  pub names_delivery : p.delivery_id ≡ d.id
  pub names_user : p.telegram_user_id ≡ r.telegram_user_id
  pub reward_row :
      select_reward id t
      ≡ some (record r { status = RewardStatus.delivering; delivery_started_at = some now })
  pub delivery_row :
      select_delivery d.id t
      ≡ some (record d {
        status = DeliveryStatus.sending;
        send_started_at = some now;
        last_error = none;
      })
  pub session_row :
      select_delivery_of id t
      ≡ some (record d {
        status = DeliveryStatus.sending;
        send_started_at = some now;
        last_error = none;
      })
  pub not_soon : 5 ≤ p.delete_seconds
  pub not_late : p.delete_seconds ≤ 172000

-- A step of the preparation that goes on to the copy has made the rows so.
abbrev pub Prepares :
    ℕ → ℕ → ℕ → Database → RewardSession → Result DeliveryError Preparation × Database → Type 0
Prepares now new_id id s r result =
    (p : PreparedDelivery) (t : Database)
    → result ≡ (ok (prepared p), t)
    → (d : Delivery) × IsPrepared now new_id id s r d p t

abbrev started : ℕ → RewardSession → Delivery → Database → Database
started now r d s = put_delivery (start_sending now d) (put_reward (start_delivering now r) s)

abbrev request : RewardSession → MovieQuality → String → ℕ → Delivery → PreparedDelivery
request r q caption delete_seconds d = record {
  delivery_id = d.id;
  telegram_user_id = r.telegram_user_id;
  archive_channel_id = q.archive_channel_id;
  archive_message_id = q.archive_message_id;
  caption = caption;
  delete_seconds = delete_seconds;
}

module _ (now new_id id : ℕ) (before : Database) (r : RewardSession) (ready : IsReady r) where
  module _ (d : Delivery) (source : IsSource new_id id before d) (s : Database) (c : IsConsistent s)
      (e : select_reward id s ≡ some r) (own : d.reward_session_id ≡ id)
      (row : lookup delivery_key d.id s.deliveries ≡ some d) where
    started-IsPrepared :
        (q : MovieQuality) (caption : String) (value : Option SettingValue)
        → IsPrepared now new_id id before r d
            (request r q caption (bounded_delete_seconds value) d)
            (started now r d s)
    unfolding start_sending start_delivering
    started-IsPrepared q caption value =
        let same : r.id ≡ id = lookup-key reward_key id s.rewards r e in
        record {
          source = source;
          ready = ready;
          same_reward = same;
          of_reward = own;
          names_delivery = refl;
          names_user = refl;
          reward_row = ground (
            arith,
            lookup-put reward_key id (start_delivering now r) r s.rewards,
            found_key now id s c.rewards r e,
          );
          delivery_row =
              ground (arith, lookup-put delivery_key d.id (start_sending now d) d s.deliveries);
          session_row = ground (
            arith,
            lookup-put_other delivery_key session_key id (start_sending now d) d s.deliveries,
            lookup-lookup session_key delivery_key d.id d s.deliveries c.one_each row,
          );
          not_soon = (bounded_delete_seconds_bounds value).0;
          not_late = (bounded_delete_seconds_bounds value).1;
        }

    begin_send-Prepares :
        (q : MovieQuality) (caption : String) (value : Option SettingValue) (st : DeliveryStatus)
        → Prepares now new_id id before r
            (begin_send now r q caption (bounded_delete_seconds value) d st s)
    unfolding begin_send
    begin_send-Prepares q caption value DeliveryStatus.sent p t f =
        absurd (finished_not_prepared _ p _ t f)
    begin_send-Prepares q caption value DeliveryStatus.deleted p t f =
        absurd (finished_not_prepared _ p _ t f)
    begin_send-Prepares q caption value DeliveryStatus.sending p t f =
        absurd (finished_not_prepared _ p _ t f)
    begin_send-Prepares q caption value _ p t f =
        let (same_request, same_state) =
          prepared_same p (request r q caption (bounded_delete_seconds value) d) (started now r d s)
            t f in
        (d, rw (same_request, same_state) (started-IsPrepared q caption value))

module _ (now new_id id : ℕ) (s : Database) (r : RewardSession) (ready : IsReady r) where
  module _ (render : Render) (c : IsConsistent s)
      (fresh : lookup delivery_key new_id s.deliveries ≡ none)
      (found : select_reward id s ≡ some r) where
    available-Prepares :
        (m : Option Movie) (q : Option MovieQuality)
        → Prepares now new_id id s r
            (prepare_available render now new_id r (select_delivery_of r.id s) m q s)
    unfolding prepare_available
    available-Prepares none q p t f = absurd (error_not_prepared _ p _ t f)
    available-Prepares (some m) none p t f = absurd (error_not_prepared _ p _ t f)
    available-Prepares (some m) (some q) p t f =
        let value : Option SettingValue = setting "movie_delete_seconds" s.settings in
        elim (Option-cases (render s m q (bounded_delete_seconds value))) [
          | inl e ↦ absurd (error_not_prepared _ p _ t (rw (e, prepare_available) at f))
          | inr (caption, e) ↦
              let (d, u, g, cu, o, fu, row, own, source) =
                ensure_delivery_lem now id r ready new_id q (select_delivery_of r.id s) s c refl
                  fresh found in
              let same : r.id ≡ id = lookup-key reward_key id s.rewards r found in
              begin_send-Prepares now new_id id s r ready d
                (subst (λ k. IsSource new_id k s d) same source) u cu fu (own ∙ same) row q caption
                value d.status p t (rw (e, prepare_available, g) at f)
        ]

    ready-Prepares :
        Prepares now new_id id s r (prepare_ready render now new_id r (select_delivery_of r.id s) s)
    unfolding prepare_ready
    ready-Prepares p t f =
        elim (Option-cases (
          availability_reason r (lookup movie_key r.movie_id s.movies)
            (lookup quality_key r.movie_quality_id s.qualities))) [
              | inl e ↦
                  available-Prepares (lookup movie_key r.movie_id s.movies)
                    (lookup quality_key r.movie_quality_id s.qualities) p t
                    (rw (e, prepare_ready) at f)
              | inr (why, e) ↦ absurd (finished_not_prepared _ p _ t (rw (e, prepare_ready) at f))
            ]

roll_back_ok :
    {E A S : Type 0} (s t : S) (a : A) (r : Result E A × S)
    → roll_back s r ≡ (ok a, t)
    → r ≡ (ok a, t)
roll_back_ok s t a (ok b, u) h = h
roll_back_ok s t a (err e, u) h = cc

module _ (render : Render) (now new_id id : ℕ) (s : Database) (c : IsConsistent s)
    (fresh : lookup delivery_key new_id s.deliveries ≡ none) where
  by_status-Prepares :
      (r : RewardSession) (st : RewardStatus)
      → select_reward id s ≡ some r
      → r.status ≡ st
      → Prepares now new_id id s r
          (prepare_by_status render now new_id r (select_delivery_of r.id s) st s)
  unfolding prepare_by_status
  by_status-Prepares r RewardStatus.delivered found e p t f =
      elim (Option-cases (select_delivery_of r.id s)) [
        | inl g ↦ absurd (error_not_prepared _ p _ t (rw (g, prepare_by_status) at f))
        | inr (d, g) ↦ absurd (finished_not_prepared _ p _ t (rw (g, prepare_by_status) at f))
      ]
  by_status-Prepares r RewardStatus.rewarded found e p t f =
      ready-Prepares now new_id id s r (inl e) render c fresh found p t f
  by_status-Prepares r RewardStatus.unavailable found e p t f =
      ready-Prepares now new_id id s r (inr e) render c fresh found p t f
  by_status-Prepares r RewardStatus.delivering found e p t f =
      absurd (finished_not_prepared _ p _ t f)
  by_status-Prepares r _ found e p t f = absurd (error_not_prepared _ p _ t f)

  -- In consistent tables, a preparation that hands a delivery to the Bot API found the reward
  -- ready, and has left its row `delivering` from now and the delivery of the session `sending`
  -- from now and without an error, with nothing else of them changed; that delivery is the one that
  -- was there, or a new one. The request names it and the user, with a time of deletion from 5 to
  -- 172000 seconds.
  pub prepare-IsPrepared :
      (p : PreparedDelivery) (t : Database)
      → prepare render now new_id id s ≡ (ok (prepared p), t)
      → (r : RewardSession) × (d : Delivery) × (select_reward id s ≡ some r)
        × IsPrepared now new_id id s r d p t
  unfolding prepare
  prepare-IsPrepared p t f = elim (Option-cases (select_reward id s)) [
    | inl e ↦ absurd (error_not_prepared _ p _ t (rw (e, prepare) at f))
    | inr (r, e) ↦
        let (d, at) =
          by_status-Prepares r r.status e refl p t (roll_back_ok s t _ _ (rw (e, prepare) at f)) in
        (r, d, e, at)
  ]
