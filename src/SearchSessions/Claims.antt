-- ===== src/SearchSessions/Claims.antt =====
-- A claim of a movie or of the way back holds until it is completed or given back.
use cine_gate.Base.{
  ℕ, ◌≡◌, ap, refl, inl, inr, str_eq, true, String, Option, none, some, List, arith, Option-cases,
  put, lookup-put, lookup-key, update_where-hit, put-IsUnique, put-put_back, All-lookup,
}
use cine_gate.SearchSessions.{
  results, opening, SearchSession, user_key, select_user, is_results, is_opening, is_selected,
  is_opening_of, claim_row, claim_movie, reset_opening,
}
use cine_gate.SearchSessions.Invariant.{SearchOk, IsSound}

-- What a claim that is granted has found and has written.
record Claimed (user : ℕ) (nonce : String) (m : ℕ) (rows after : List SearchSession)
    (r : SearchSession) : Type 0 where
  found : select_user user rows ≡ some r
  current : str_eq r.nonce nonce ≡ true
  on_results : is_results r.state ≡ true
  written : after ≡ put user_key (record r { state = opening; selected_movie_id = some m }) rows

claim_row-Claimed :
    (nonce : String) (m : ℕ) (r row : SearchSession) (rows after : List SearchSession)
    → claim_row nonce m (some r) rows ≡ (some row, after)
    → (str_eq r.nonce nonce ≡ true)
      × (is_results r.state ≡ true)
      × (after ≡ put user_key (record r { state = opening; selected_movie_id = some m }) rows)
unfolding claim_row
claim_row-Claimed nonce m r row rows after h = ground arith

-- On the results no movie is selected.
restored :
    (m : ℕ) (r : SearchSession)
    → SearchOk r
    → is_results r.state ≡ true
    → record (record r { state = opening; selected_movie_id = some m }) {
      state = results;
      selected_movie_id = none;
    }
      ≡ r
unfolding is_results
restored m r o h = ground (arith, o.resting)

nothing_claimed :
    {A : Type 0} (row : SearchSession) (rows after : List SearchSession)
    → ◌≡◌ {A = Option SearchSession × List SearchSession} (none, rows) (some row, after)
    → A
nothing_claimed row rows after h = cc

module _ (user : ℕ) (nonce : String) (m : ℕ) (rows after : List SearchSession) (row : SearchSession)
    (v : IsSound rows) (claim : claim_movie user nonce m rows ≡ (some row, after)) where
  claim_movie-Claimed : (r : SearchSession) × Claimed user nonce m rows after r
  unfolding claim_movie
  claim_movie-Claimed = elim (Option-cases (select_user user rows)) [
    | inl e ↦ nothing_claimed row rows after (rw (e, claim_movie) at claim)
    | inr (r, e) ↦
        let (f, g, h) = claim_row-Claimed nonce m r row rows after (rw (e, claim_movie) at claim) in
        (r, record { found = e; current = f; on_results = g; written = h })
  ]

  opened :
      (r : SearchSession)
      → Claimed user nonce m rows after r
      → select_user user after ≡ some (record r { state = opening; selected_movie_id = some m })
  opened r c = rw c.written (
      ground (
        arith,
        lookup-key user_key user rows r c.found,
        c.found,
        lookup-put user_key user (record r { state = opening; selected_movie_id = some m }) r rows,
      ))

  -- Directly after a claim of a movie that is granted, no other claim of the user is granted, of
  -- this movie or of another, and nothing is written.
  pub claim_movie_exclusive :
      (other_nonce : String) (other : ℕ) → claim_movie user other_nonce other after ≡ (none, after)
  unfolding claim_movie claim_row is_results
  claim_movie_exclusive other_nonce other =
      let (r, c) = claim_movie-Claimed in rw (opened r c, claim_row) (ground arith)

  -- A claimed movie that is given back, directly after the claim, leaves the table as it was before
  -- the claim.
  pub reset_opening-claim_movie : reset_opening user nonce m after ≡ (true, rows)
  unfolding reset_opening is_opening is_selected
  reset_opening-claim_movie =
      let (r, c) = claim_movie-Claimed in
      let row : SearchSession = record r { state = opening; selected_movie_id = some m } in
      let f : SearchSession → SearchSession =
        λ s. record s { state = results; selected_movie_id = none } in
      let (step, hit) =
        update_where-hit user_key user (is_opening_of nonce m) f after row
          (rw c.written (put-IsUnique user_key row rows v.unique)) (opened r c)
          (ground (arith, c.current)) (lookup-key user_key user rows r c.found) in
      rw
        (
          step,
          hit,
          c.written,
          restored m r (All-lookup user_key SearchOk user rows r v.rows_ok c.found) c.on_results,
        )
        (ap (λ t. (true, t))
          (put-put_back user_key r row rows
            (ground (arith, c.found, lookup-key user_key user rows r c.found)) refl))
