-- ===== src/Rewards/Creation.antt =====
-- `get_or_create` keeps the invariant: a new session is made only where the user's slot is free.
use cine_gate.Base.{
  ℕ, ◌≡◌, refl, inl, inr, ◌==◌, true, false, ◌&&◌, Option, none, some, ok, arith, roll_back_keeps,
  str_eq, Option-cases, Bool-cases, String, select_first, count, lookup, count-put,
  lookup-update_where, lookup-put-none, count-select_first-none,
}
use cine_gate.Models.{
  RewardSession, MovieQuality, UnavailableReason, Database, setting, get_int_cases,
}
use cine_gate.Rewards.Rows.{
  setting_type_error, bounded_session_seconds, is_active_status, is_rewarded, is_rewarded_status,
  in_delivery, reward_key, movie_key, quality_key, put_reward, preserve_unavailable,
  availability_reason,
}
use cine_gate.Rewards.{
  is_overdue, expire, expire_overdue, holds_slot, newest_first, oldest_first, is_retained,
  select_active, select_quality, new_session, insert_reward, release_unavailable, resolve,
  get_or_create,
}
use cine_gate.Rewards.Invariant.{RewardOk, Inv, put_reward-Inv, expire_overdue-Inv}
use cine_gate.Rewards.Methods.{active_ok, active_key}

pub preserve_unavailable-RewardOk :
    (reason : UnavailableReason) (now : ℕ) (r : RewardSession)
    → RewardOk r
    → is_rewarded r.status ≡ true
    → RewardOk (preserve_unavailable reason now r)
unfolding preserve_unavailable in_delivery is_rewarded
preserve_unavailable-RewardOk reason now r o h = ground arith

-- A session that is set aside holds no slot.
pub preserve_unavailable-holds_slot :
    (reason : UnavailableReason) (now u : ℕ) (r : RewardSession)
    → holds_slot u (preserve_unavailable reason now r) ≡ false
unfolding preserve_unavailable is_active_status
preserve_unavailable-holds_slot reason now u r = ground arith

rewarded-is_rewarded :
    (r : RewardSession) → is_rewarded_status r.status ≡ true → is_rewarded r.status ≡ true
unfolding is_rewarded is_rewarded_status
rewarded-is_rewarded r h = ground arith

-- After `release_unavailable` either an active session is at hand or the slot is free.
record Released (user id : ℕ) (active : Option RewardSession) (t : Database) : Type 0 where
  kept : Inv t
  free : active ≡ none → count (holds_slot user) t.rewards ≡ 0
  fresh : lookup reward_key id t.rewards ≡ none

module _ (now user id : ℕ) (s : Database) (v : Inv s)
    (fresh : lookup reward_key id s.rewards ≡ none) where
  abbrev Releases : Option RewardSession → Type 0
  Releases candidate =
      (active : Option RewardSession) × (t : Database) × (release_unavailable now candidate s
        ≡ (ok active, t))
      × Released user id active t

  set_aside :
      (r : RewardSession) (reason : UnavailableReason)
      → select_active user s ≡ some r
      → is_rewarded_status r.status ≡ true
      → Released user id none (put_reward (preserve_unavailable reason now r) s)
  set_aside r reason e h =
      let a = active_ok user s v r e in
      let key = active_key user s v r e in
      let p = preserve_unavailable reason now r in
      let same : p.id ≡ r.id = unfold preserve_unavailable in refl in
      record {
        kept =
            put_reward-Inv s p r v key same
              (preserve_unavailable-RewardOk reason now r a.0 (rewarded-is_rewarded r h))
              (λ u k. ground (arith, preserve_unavailable-holds_slot reason now u r));
        free = λ _. ground (
          arith,
          count-put reward_key (holds_slot user) p r s.rewards (rw same key),
          preserve_unavailable-holds_slot reason now user r,
          a.1,
          v.one_active user,
        );
        fresh = lookup-put-none reward_key id p s.rewards fresh;
      }

  release_lem : Releases (select_active user s)
  release_lem = elim (Option-cases (select_active user s)) [
    | inl e ↦ rw e (
      none,
      s,
      unfold release_unavailable in refl,
      record { kept = v; free = λ _. none_free e; fresh = fresh },
    )
    | inr (r, e) ↦ rw e (found r e)
  ]
    where
      none_free : select_active user s ≡ none → count (holds_slot user) s.rewards ≡ 0
      none_free e =
          count-select_first-none newest_first (holds_slot user) s.rewards
            (unfold select_active in e)

      stays : (r : RewardSession) → Released user id (some r) s
      stays r = record { kept = v; free = λ h. cc; fresh = fresh }

      reason_of : RewardSession → Option UnavailableReason
      reason_of r =
          availability_reason r (lookup movie_key r.movie_id s.movies)
            (lookup quality_key r.movie_quality_id s.qualities)

      found : (r : RewardSession) → select_active user s ≡ some r → Releases (some r)
      found r e = elim (Bool-cases (is_rewarded_status r.status)) [
        | inr other ↦ (some r, s, unfold release_unavailable in rw other, stays r)
        | inl earned ↦ elim (Option-cases (reason_of r)) [
          | inl f ↦ (some r, s, unfold release_unavailable in rw (earned, f), stays r)
          | inr (why, f) ↦ (
            none,
            put_reward (preserve_unavailable why now r) s,
            unfold release_unavailable in rw (earned, f),
            set_aside r why e earned,
          )
        ]
      ]

new_session-RewardOk :
    (now id user movie ttl : ℕ) (q : MovieQuality) → RewardOk (new_session now id user movie q ttl)
unfolding new_session is_rewarded
new_session-RewardOk now id user movie ttl q = ground arith

new_session-holds_slot :
    (now id user movie ttl u : ℕ) (q : MovieQuality)
    → holds_slot u (new_session now id user movie q ttl) ≡ (user == u)
unfolding new_session is_active_status
new_session-holds_slot now id user movie ttl u q = ground arith

insert_reward-Inv :
    (now id user movie ttl : ℕ) (q : MovieQuality) (t : Database)
    → Released user id none t
    → Inv (insert_reward (new_session now id user movie q ttl) t)
unfolding insert_reward count
insert_reward-Inv now id user movie ttl q t r = record {
  unique = (unfold new_session in r.fresh, r.kept.unique);
  rows = (new_session-RewardOk now id user movie ttl q, r.kept.rows);
  one_active = λ u.
      ground
        (arith, r.kept.one_active u, r.free refl, new_session-holds_slot now id user movie ttl u q);
}

resolve-Inv :
    (now id user movie : ℕ) (quality : String) (q : MovieQuality)
    (kept active : Option RewardSession) (t : Database)
    → Released user id active t
    → Inv (resolve now id user movie quality q kept active t).1
unfolding resolve
resolve-Inv now id user movie quality q (some k) active t r = r.kept
resolve-Inv now id user movie quality q none (some a) t r =
    elim (Bool-cases
      (a.movie_id == movie && a.movie_quality_id == q.id && str_eq a.quality quality)) [
        | inl e ↦ rw e r.kept
        | inr e ↦ rw e r.kept
      ]
resolve-Inv now id user movie quality q none none t r =
    elim (get_int_cases setting_type_error (setting "reward_session_seconds" t.settings) t) [
      | inl (n, e) ↦ rw e (insert_reward-Inv now id user movie (bounded_session_seconds n) q t r)
      | inr e ↦ rw e r.kept
    ]

expire_overdue-fresh :
    (now user id : ℕ) (s : Database)
    → lookup reward_key id s.rewards ≡ none
    → lookup reward_key id (expire_overdue now user s).rewards ≡ none
unfolding expire_overdue
expire_overdue-fresh now user id s h =
    rw (lookup-update_where reward_key (is_overdue now user) expire (λ r. refl) id s.rewards, h)

-- A key that is not yet in the table, as `uuid4` gives one.
pub get_or_create-Inv :
    (now id user movie : ℕ) (quality : String) (s : Database)
    → Inv s
    → lookup reward_key id s.rewards ≡ none
    → Inv (get_or_create now id user movie quality s).1
unfolding get_or_create
get_or_create-Inv now id user movie quality s v fresh =
    elim (Option-cases (select_quality movie quality s)) [
      | inl e ↦ rw (e, get_or_create) v
      | inr (q, e) ↦
          let u = expire_overdue now user s in
          let (active, t, f, r) =
            release_lem now user id u (expire_overdue-Inv now user s v)
              (expire_overdue-fresh now user id s fresh) in
          let kept : Option RewardSession =
            select_first oldest_first (is_retained user movie q quality) t.rewards in
          let w : Inv (resolve now id user movie quality q kept active t).1 =
            resolve-Inv now id user movie quality q kept active t r in
          rw (e, get_or_create, f)
            (roll_back_keeps Inv s (resolve now id user movie quality q kept active t) v w)
    ]
