-- ===== src/SearchSessions/Nonces.antt =====
-- A button of an earlier search carries the nonce of that search.
use cine_gate.Base.{
  ℕ, ◌≡◌, refl, inl, inr, str_eq, Bool, false, ◌&&◌, String, some, List, arith, Option-cases,
  lookup, IsUnique, lookup-put, lookup-key, update_where-refused,
}
use cine_gate.SearchSessions.{
  SearchSession, user_key, select_user, is_results, is_opening_of, is_returning_of, update_user,
  new_search, renew, replace_row, replace, claim_row, claim_movie, back_row, claim_back,
  set_result_message, complete_movie, reset_opening, complete_back, reset_returning,
}
use cine_gate.SearchSessions.Invariant.{IsSound}
use cine_gate.SearchSessions.Runs.{
  Action, show_results, open_movie, movie_opened, movie_failed, go_back, went_back, back_failed,
  perform, replace-IsSound,
}

module _ (user : ℕ) (old : String) (rows : List SearchSession) (unique : IsUnique user_key rows)
    (r : SearchSession) (found : select_user user rows ≡ some r)
    (stale : str_eq r.nonce old ≡ false) where
  update_refused :
      (guard : SearchSession → Bool) (f : SearchSession → SearchSession)
      → guard r ≡ false
      → update_user user guard f rows ≡ (false, rows)
  update_refused guard f unmet =
      let (same, hit) = update_where-refused user_key user guard f rows r unique found unmet in
      rw (same, hit) refl

  -- A request with a nonce that the user's row does not have.
  stale-perform : (a : Action) → perform user old a rows ≡ (false, rows)
  unfolding perform set_result_message complete_movie reset_opening complete_back reset_returning
      claim_movie claim_row claim_back back_row
  stale-perform (show_results message) =
      update_refused (λ s. str_eq s.nonce old && is_results s.state) _ (rw stale refl)
  stale-perform (open_movie m) = rw (found, claim_row, stale) refl
  stale-perform (movie_opened m poster) = update_refused (is_opening_of old m) _ (rw stale refl)
  stale-perform (movie_failed m) = update_refused (is_opening_of old m) _ (rw stale refl)
  stale-perform go_back = rw (found, back_row, stale) refl
  stale-perform (went_back message) = update_refused (is_returning_of old) _ (rw stale refl)
  stale-perform back_failed = update_refused (is_returning_of old) _ (rw stale refl)

module _ (user : ℕ) (nonce raw normalized : String) (movies : List ℕ) (rows : List SearchSession)
    (v : IsSound rows) where
  -- The row of the user after a new search.
  replace-select :
      (r : SearchSession) × (r.nonce ≡ nonce)
      × (select_user user (replace user nonce raw normalized movies rows).1 ≡ some r)
  unfolding replace new_search renew lookup
  replace-select = elim (Option-cases (select_user user rows)) [
    | inl e ↦ rw (e, replace_row) (new_search user nonce raw normalized movies, refl, ground arith)
    | inr (r, e) ↦
        rw (e, replace_row)
          (
            renew nonce raw normalized movies r,
            refl,
            ground (
              arith,
              lookup-key user_key user rows r e,
              lookup-put user_key user (renew nonce raw normalized movies r) r rows,
            ),
          )
  ]

  -- In a sound table, directly after a new search of the user, a request of the user with another
  -- nonce is refused and writes nothing, in whatever state the earlier search was.
  pub replace_outdates :
      (old : String)
      → str_eq nonce old ≡ false
      → (a : Action)
      → let after = (replace user nonce raw normalized movies rows).1 in
        perform user old a after ≡ (false, after)
  replace_outdates old differ a =
      let (r, same, found) = replace-select in
      stale-perform user old (replace user nonce raw normalized movies rows).1
        ((replace-IsSound user nonce raw normalized movies rows v).unique) r found (rw same differ)
        a
