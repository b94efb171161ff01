-- ===== src/Delivery/Preparing.antt =====
-- `_prepare` keeps the tables consistent.
use mathlib.Core.Path.{sym}
use cine_gate.Base.{
  ℕ, ◌≡◌, ◌⊎◌, refl, inl, inr, true, Option, none, some, ok, arith, Option-cases, String, ◌∷◌,
  lookup, All-lookup, lookup-key, lookup-lookup, roll_back_keeps,
}
use cine_gate.Models.{
  RewardSession, RewardStatus, Movie, MovieQuality, Delivery, DeliveryStatus, Database, setting,
}
use cine_gate.Rewards.{select_reward}
use cine_gate.Rewards.Rows.{
  is_rewarded, put_reward, preserve_unavailable, availability_reason, movie_key, quality_key,
}
use cine_gate.Rewards.Invariant.{RewardOk}
use cine_gate.Rewards.Creation.{preserve_unavailable-RewardOk, preserve_unavailable-holds_slot}
use cine_gate.Rewards.Methods.{found_ok}
use cine_gate.Delivery.Rows.{
  Render, delivery_key, session_key, settle_delivered, start_sending, start_delivering,
  new_delivery, begin_send, ensure_delivery, bounded_delete_seconds,
}
use cine_gate.Delivery.{
  prepare_available, prepare_ready, prepare_by_status, prepare, select_delivery_of,
}
use cine_gate.Delivery.Invariant.{
  DeliveryOk, IsConsistent, IsReady, ready-is_rewarded, settle_delivered-RewardOk,
  start_delivering-RewardOk, start_delivering-holds_slot, waiting-RewardOk, waiting-holds_slot,
  resting-holds_slot, start_sending-DeliveryOk, new_delivery-DeliveryOk, put_reward-IsConsistent,
  put_delivery-IsConsistent,
}

-- The delivery of the session: the row that is there, or a new one that was never attempted.
abbrev pub IsSource : ℕ → ℕ → Database → Delivery → Type 0
IsSource new_id id s d =
    (select_delivery_of id s ≡ some d)
    ⊎ ((select_delivery_of id s ≡ none) × (d.id ≡ new_id) × (d.attempts ≡ 0))

module _ (now id : ℕ) (r : RewardSession) (ready : IsReady r) where
  begin_send-IsConsistent :
      (q : MovieQuality) (caption : String) (delete_seconds : ℕ) (d : Delivery)
      (st : DeliveryStatus) (s : Database)
      → IsConsistent s
      → DeliveryOk d
      → select_reward id s ≡ some r
      → lookup delivery_key d.id s.deliveries ≡ some d
      → IsConsistent (begin_send now r q caption delete_seconds d st s).1
  begin_send-IsConsistent q caption delete_seconds d st s c o e row = by_status st
    where
      ok_row : RewardOk r
      ok_row = found_ok now id s c.rewards r e

      rewarded : is_rewarded r.status ≡ true
      rewarded = ready-is_rewarded r ready

      settled : IsConsistent (put_reward (settle_delivered now d r) s)
      settled =
          put_reward-IsConsistent s (settle_delivered now d r) r id c e
            (unfold settle_delivered in refl) (settle_delivered-RewardOk now r ok_row d rewarded)
            (λ u h. ground (arith, (resting-holds_slot now r ok_row u d).0))

      started : IsConsistent (put_reward (start_delivering now r) s)
      started =
          put_reward-IsConsistent s (start_delivering now r) r id c e
            (unfold start_delivering in refl) (start_delivering-RewardOk now r ok_row rewarded)
            (λ u h. start_delivering-holds_slot now r ok_row u ready h)

      waiting : IsConsistent (put_reward (record r { status = RewardStatus.delivering }) s)
      waiting =
          put_reward-IsConsistent s (record r { status = RewardStatus.delivering }) r id c e refl
            (waiting-RewardOk now r ok_row rewarded)
            (λ u h. waiting-holds_slot now r ok_row u ready h)

      by_status :
          (st : DeliveryStatus) → IsConsistent (begin_send now r q caption delete_seconds d st s).1
      by_status DeliveryStatus.sent = unfold begin_send in settled
      by_status DeliveryStatus.deleted = unfold begin_send in settled
      by_status DeliveryStatus.sending = unfold begin_send in waiting
      by_status _ =
          unfold begin_send in
          put_delivery-IsConsistent (put_reward (start_delivering now r) s) (start_sending now d) d
            started row (unfold start_sending in refl) (unfold start_sending in refl)
            (start_sending-DeliveryOk now d o)

  -- The delivery row that `_prepare` goes on with is in the table, and no reward has changed.
  pub ensure_delivery_lem :
      (new_id : ℕ) (q : MovieQuality) (existing : Option Delivery) (s : Database)
      → IsConsistent s
      → (existing ≡ select_delivery_of r.id s)
      → lookup delivery_key new_id s.deliveries ≡ none
      → select_reward id s ≡ some r
      → (d : Delivery) × (t : Database) × (ensure_delivery new_id r q existing s ≡ (ok d, t))
        × IsConsistent t
        × DeliveryOk d
        × (select_reward id t ≡ some r)
        × (lookup delivery_key d.id t.deliveries ≡ some d)
        × (d.reward_session_id ≡ r.id)
        × IsSource new_id r.id s d
  unfolding lookup
  ensure_delivery_lem new_id q (some d) s c e fresh found = (
    d,
    s,
    unfold ensure_delivery in refl,
    c,
    All-lookup session_key DeliveryOk r.id s.deliveries d c.rows (sym e),
    found,
    lookup-lookup delivery_key session_key r.id d s.deliveries c.unique (sym e),
    lookup-key session_key r.id s.deliveries d (sym e),
    inl (sym e),
  )
  ensure_delivery_lem new_id q none s c e fresh found =
      let d = new_delivery new_id r q in
      (
        d,
        record s { deliveries = d ∷ s.deliveries },
        unfold ensure_delivery in refl,
        record {
          rewards = record {
            unique = c.rewards.unique;
            rows = c.rewards.rows;
            one_active = c.rewards.one_active;
          };
          unique = (unfold new_delivery in fresh, c.unique);
          one_each = (unfold new_delivery in sym e, c.one_each);
          rows = (new_delivery-DeliveryOk new_id r q, c.rows);
        },
        new_delivery-DeliveryOk new_id r q,
        found,
        ground arith,
        unfold new_delivery in refl,
        inr (sym e, unfold new_delivery in refl, unfold new_delivery in refl),
      )

  module _ (render : Render) (new_id : ℕ) (s : Database) (c : IsConsistent s)
      (fresh : lookup delivery_key new_id s.deliveries ≡ none)
      (found : select_reward id s ≡ some r) where
    available-IsConsistent :
        (m : Option Movie) (q : Option MovieQuality)
        → IsConsistent (prepare_available render now new_id r (select_delivery_of r.id s) m q s).1
    unfolding prepare_available
    available-IsConsistent none q = c
    available-IsConsistent (some m) none = c
    available-IsConsistent (some m) (some q) =
        let delete_seconds = bounded_delete_seconds (setting "movie_delete_seconds" s.settings) in
        elim (Option-cases (render s m q delete_seconds)) [
          | inl e ↦ rw (e, prepare_available) c
          | inr (caption, e) ↦
              let (d, t, f, ct, o, ft, row, _, _) =
                ensure_delivery_lem new_id q (select_delivery_of r.id s) s c refl fresh found in
              rw (e, prepare_available, f)
                (begin_send-IsConsistent q caption delete_seconds d d.status t ct o ft row)
        ]

    ready-IsConsistent :
        IsConsistent (prepare_ready render now new_id r (select_delivery_of r.id s) s).1
    unfolding prepare_ready
    ready-IsConsistent =
        elim (Option-cases (
          availability_reason r (lookup movie_key r.movie_id s.movies)
            (lookup quality_key r.movie_quality_id s.qualities))) [
              | inl e ↦
                  rw (e, prepare_ready)
                    (available-IsConsistent (lookup movie_key r.movie_id s.movies)
                      (lookup quality_key r.movie_quality_id s.qualities))
              | inr (why, e) ↦
                  let ok_row : RewardOk r = found_ok now id s c.rewards r found in
                  rw (e, prepare_ready)
                    (put_reward-IsConsistent s (preserve_unavailable why now r) r id c found
                      (unfold preserve_unavailable in refl)
                      (preserve_unavailable-RewardOk why now r ok_row (ready-is_rewarded r ready))
                      (λ u h. ground (arith, preserve_unavailable-holds_slot why now u r)))
            ]

module _ (render : Render) (now new_id id : ℕ) (s : Database) (c : IsConsistent s)
    (fresh : lookup delivery_key new_id s.deliveries ≡ none) where
  by_status-IsConsistent :
      (r : RewardSession) (st : RewardStatus)
      → select_reward id s ≡ some r
      → r.status ≡ st
      → IsConsistent (prepare_by_status render now new_id r (select_delivery_of r.id s) st s).1
  unfolding prepare_by_status
  by_status-IsConsistent r RewardStatus.delivered found e =
      elim (Option-cases (select_delivery_of r.id s)) [
        | inl f ↦ rw (f, prepare_by_status) c
        | inr (d, f) ↦ rw (f, prepare_by_status) c
      ]
  by_status-IsConsistent r RewardStatus.rewarded found e =
      ready-IsConsistent now id r (inl e) render new_id s c fresh found
  by_status-IsConsistent r RewardStatus.unavailable found e =
      ready-IsConsistent now id r (inr e) render new_id s c fresh found
  by_status-IsConsistent r _ found e = c

  -- In consistent tables, the preparation of a delivery, whether it returns or raises, keeps them
  -- consistent, where the key of a new row is new.
  pub prepare-IsConsistent : IsConsistent (prepare render now new_id id s).1
  unfolding prepare
  prepare-IsConsistent = elim (Option-cases (select_reward id s)) [
    | inl e ↦ rw (e, prepare) c
    | inr (r, e) ↦
        rw (e, prepare)
          (roll_back_keeps IsConsistent s
            (prepare_by_status render now new_id r (select_delivery_of r.id s) r.status s) c
            (by_status-IsConsistent r r.status e refl))
  ]
