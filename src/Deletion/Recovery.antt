-- ===== src/Deletion/Recovery.antt =====
-- The recovery of sends that a crash has left in the hands of nobody.
use cine_gate.Base.{
  ℕ, ◌≡◌, refl, inl, inr, ◌==◌, true, Option, none, some, arith, Bool-cases, List, [], ◌∷◌, All,
  lookup, put, IsUnique, select_where, All-select_where, put-IsFrom, IsFrom, IsUnique-IsFrom,
  select_where-IsUnique,
}
use cine_gate.Models.{RewardSession, RewardStatus, Delivery, Database}
use cine_gate.Rewards.{select_reward}
use cine_gate.Rewards.Methods.{found_ok}
use cine_gate.Delivery.Rows.{delivery_key, put_delivery, undo_delivering}
use cine_gate.Delivery.Invariant.{
  DeliveryOk, IsConsistent, put_delivery-IsConsistent, put_reward-IsConsistent,
  undo_delivering-RewardOk, undo_delivering-holds_slot,
}
use cine_gate.Deletion.{
  is_stale_send, recovered_send, recover_send, recover_sends, recover_stale_sends,
}

recovered_send-DeliveryOk : (d : Delivery) → DeliveryOk (recovered_send d)
unfolding recovered_send
recovered_send-DeliveryOk d = ground arith

undo_delivering-id :
    (now : ℕ) (r : RewardSession) (st : RewardStatus) → (undo_delivering now none r st).id ≡ r.id
unfolding undo_delivering
undo_delivering-id now r st = ground arith

module _ (now : ℕ) (d : Delivery) (t : Database) (c : IsConsistent t)
    (found : lookup delivery_key d.id t.deliveries ≡ some d) where
  recovered-IsConsistent : IsConsistent (put_delivery (recovered_send d) t)
  unfolding recovered_send
  recovered-IsConsistent =
      put_delivery-IsConsistent t (recovered_send d) d c found refl refl
        (recovered_send-DeliveryOk d)

  recover_send-IsConsistent :
      (o : Option RewardSession)
      → select_reward d.reward_session_id t ≡ o
      → IsConsistent (recover_send now d o t)
  unfolding recover_send
  recover_send-IsConsistent none e = recovered-IsConsistent
  recover_send-IsConsistent (some r) e =
      put_reward-IsConsistent (put_delivery (recovered_send d) t)
        (undo_delivering now none r r.status) r d.reward_session_id recovered-IsConsistent e
        (undo_delivering-id now r r.status)
        (undo_delivering-RewardOk now r (found_ok 0 d.reward_session_id t c.rewards r e) none)
        (λ u k.
          undo_delivering-holds_slot now r (found_ok 0 d.reward_session_id t c.rewards r e) u none
            k)

  recover_send-deliveries :
      (o : Option RewardSession)
      → (recover_send now d o t).deliveries ≡ put delivery_key (recovered_send d) t.deliveries
  unfolding recover_send
  recover_send-deliveries none = refl
  recover_send-deliveries (some r) = refl

recover_sends-IsConsistent :
    (now : ℕ) (ds : List Delivery) (t : Database)
    → IsConsistent t
    → IsUnique delivery_key ds
    → IsFrom delivery_key t.deliveries ds
    → IsConsistent (recover_sends now ds t)
unfolding recover_sends recovered_send
recover_sends-IsConsistent now [] t c u from = c
recover_sends-IsConsistent now (d ∷ ds) t c u from =
    let o = select_reward d.reward_session_id t in
    recover_sends-IsConsistent now ds (recover_send now d o t)
      (recover_send-IsConsistent now d t c from.0 o refl) u.1
      (rw (recover_send-deliveries now d t c from.0 o)
        (put-IsFrom delivery_key (recovered_send d) d t.deliveries ds from.0 u.0 from.1))

-- In consistent tables, the recovery of stale sends, with any limit of age, keeps them consistent.
pub recover_stale_sends-IsConsistent :
    (now stale : ℕ) (s : Database)
    → IsConsistent s
    → IsConsistent (recover_stale_sends now stale s).1
unfolding recover_stale_sends
recover_stale_sends-IsConsistent now stale s c =
    let from : All (λ d. lookup delivery_key d.id s.deliveries ≡ some d) s.deliveries =
      IsUnique-IsFrom delivery_key s.deliveries c.unique in
    elim (Bool-cases (stale == 0)) [
      | inl e ↦ rw e c
      | inr e ↦ rw e (
          recover_sends-IsConsistent now (select_where (is_stale_send now stale) s.deliveries) s c
            (select_where-IsUnique delivery_key (is_stale_send now stale) s.deliveries c.unique)
            (All-first (select_where (is_stale_send now stale) s.deliveries) (
              All-select_where (λ d. lookup delivery_key d.id s.deliveries ≡ some d)
                (is_stale_send now stale) s.deliveries from)))
    ]
  where
    All-first :
        (ds : List Delivery)
        → All
            (λ d.
              (lookup delivery_key d.id s.deliveries ≡ some d) × (is_stale_send now stale d ≡ true))
            ds
        → IsFrom delivery_key s.deliveries ds
    All-first [] h = tt
    All-first (d ∷ ds) h = (h.0.0, All-first ds h.1)
