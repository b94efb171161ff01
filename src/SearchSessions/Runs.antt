-- ===== src/SearchSessions/Runs.antt =====
-- The methods of the search service in any order, by any users.
use cine_gate.Base.{
  ℕ, ◌≡◌, ◌⊎◌, refl, inl, inr, str_eq, is_some, Bool, true, String, none, some, List, [],
  Option-cases, Bool-cases, put, All-lookup,
}
use cine_gate.SearchSessions.{
  opening, returning, SearchSession, user_key, select_user, is_results, is_movie, contains,
  new_search, renew, replace_row, replace, set_result_message, claim_row, claim_movie,
  complete_movie, reset_opening, back_row, claim_back, complete_back, reset_returning,
}
use cine_gate.SearchSessions.Invariant.{
  SearchOk, IsSound, update-IsSound, put-IsSound, set_result-SearchOk, complete-SearchOk,
  reset-SearchOk, complete_back-SearchOk, reset_returning-SearchOk, open-SearchOk, back-SearchOk,
  renew-SearchOk, new_search-SearchOk,
}

-- A method other than `replace`, with the user and the nonce that the button names.
pub data Action : Type 0 where
  show_results : ℕ → Action
  open_movie : ℕ → Action
  movie_opened : ℕ → ℕ → Action
  movie_failed : ℕ → Action
  go_back : Action
  went_back : ℕ → Action
  back_failed : Action

-- The method, and whether it did what it was asked for.
unfoldable pub perform : ℕ → String → Action → List SearchSession → Bool × List SearchSession
unfolding set_result_message claim_movie complete_movie reset_opening claim_back complete_back
    reset_returning
perform user nonce (show_results message) rows = set_result_message user nonce message rows
perform user nonce (open_movie m) rows =
    let (row, after) = claim_movie user nonce m rows in (is_some row, after)
perform user nonce (movie_opened m poster) rows = complete_movie user nonce m poster rows
perform user nonce (movie_failed m) rows = reset_opening user nonce m rows
perform user nonce go_back rows =
    let (row, after) = claim_back user nonce rows in (is_some row, after)
perform user nonce (went_back message) rows = complete_back user nonce message rows
perform user nonce back_failed rows = reset_returning user nonce rows

-- A claim either changes nothing or writes the row whose guards hold.
pub claim_row_cases :
    (nonce : String) (m : ℕ) (r : SearchSession) (rows : List SearchSession)
    → (claim_row nonce m (some r) rows ≡ (none, rows))
      ⊎ ((is_results r.state ≡ true)
          × (contains m r.result_movie_ids ≡ true)
          × (let row = record r { state = opening; selected_movie_id = some m } in
              claim_row nonce m (some r) rows ≡ (some row, put user_key row rows)))
unfolding claim_row
claim_row_cases nonce m r rows = elim (Bool-cases (str_eq r.nonce nonce)) [
  | inl e ↦ rw e (elim (Bool-cases (is_results r.state)) [
    | inl f ↦ rw f (elim (Bool-cases (contains m r.result_movie_ids)) [
      | inl g ↦ rw g (inr (refl, refl, refl))
      | inr g ↦ rw g (inl refl)
    ])
    | inr f ↦ rw f (inl refl)
  ])
  | inr e ↦ rw e (inl refl)
]

pub back_row_cases :
    (nonce : String) (r : SearchSession) (rows : List SearchSession)
    → (back_row nonce (some r) rows ≡ (none, rows))
      ⊎ ((is_movie r.state ≡ true)
          × (let row = record r { state = returning } in
              back_row nonce (some r) rows ≡ (some row, put user_key row rows)))
unfolding back_row
back_row_cases nonce r rows = elim (Bool-cases (str_eq r.nonce nonce)) [
  | inl e ↦ rw e (elim (Bool-cases (is_movie r.state)) [
    | inl f ↦ rw f (inr (refl, refl))
    | inr f ↦ rw f (inl refl)
  ])
  | inr e ↦ rw e (inl refl)
]

module _ (user : ℕ) (nonce : String) (rows : List SearchSession) (v : IsSound rows) where
  claim_movie-IsSound : (m : ℕ) → IsSound (claim_movie user nonce m rows).1
  unfolding claim_movie claim_row
  claim_movie-IsSound m = elim (Option-cases (select_user user rows)) [
    | inl e ↦ rw (e, claim_row) v
    | inr (r, e) ↦ elim (claim_row_cases nonce m r rows) [
      | inl same ↦ rw (e, same) v
      | inr (f, g, step) ↦
          rw (e, step)
            (put-IsSound (record r { state = opening; selected_movie_id = some m }) rows
              (open-SearchOk r (All-lookup user_key SearchOk user rows r v.rows_ok e) m g) v)
    ]
  ]

  claim_back-IsSound : IsSound (claim_back user nonce rows).1
  unfolding claim_back back_row
  claim_back-IsSound = elim (Option-cases (select_user user rows)) [
    | inl e ↦ rw (e, back_row) v
    | inr (r, e) ↦ elim (back_row_cases nonce r rows) [
      | inl same ↦ rw (e, same) v
      | inr (f, step) ↦
          rw (e, step)
            (put-IsSound (record r { state = returning }) rows
              (back-SearchOk r (All-lookup user_key SearchOk user rows r v.rows_ok e) f) v)
    ]
  ]

  -- No method but `replace` leaves the columns of a row at odds with its state.
  pub perform-IsSound : (a : Action) → IsSound (perform user nonce a rows).1
  unfolding perform set_result_message complete_movie reset_opening complete_back reset_returning
  perform-IsSound (show_results message) =
      update-IsSound user _ _ (λ r. refl) (λ r _ o. set_result-SearchOk r o message) rows v
  perform-IsSound (open_movie m) = claim_movie-IsSound m
  perform-IsSound (movie_opened m poster) =
      update-IsSound user _ _ (λ r. refl) (λ r h o. complete-SearchOk r o nonce m poster h) rows v
  perform-IsSound (movie_failed m) =
      update-IsSound user _ _ (λ r. refl) (λ r _ o. reset-SearchOk r o) rows v
  perform-IsSound go_back = claim_back-IsSound
  perform-IsSound (went_back message) =
      update-IsSound user _ _ (λ r. refl) (λ r _ o. complete_back-SearchOk r o message) rows v
  perform-IsSound back_failed =
      update-IsSound user _ _ (λ r. refl) (λ r h o. reset_returning-SearchOk r o nonce h) rows v

-- A new search of the user, whether the user had one or not.
pub replace-IsSound :
    (user : ℕ) (nonce raw normalized : String) (movies : List ℕ) (rows : List SearchSession)
    → IsSound rows
    → IsSound (replace user nonce raw normalized movies rows).1
unfolding replace new_search
replace-IsSound user nonce raw normalized movies rows v =
    elim (Option-cases (select_user user rows)) [
      | inl e ↦
          rw (e, replace_row)
            (record {
              unique = (e, v.unique);
              rows_ok = (new_search-SearchOk user nonce raw normalized movies, v.rows_ok);
            })
      | inr (r, e) ↦
          rw (e, replace_row)
            (put-IsSound (renew nonce raw normalized movies r) rows
              (renew-SearchOk nonce raw normalized movies r) v)
    ]

-- The tables that runs of the service reach: any methods, of any users, in any order.
pub data Reachable : List SearchSession → Type 0 where
  empty : Reachable []
  searched :
      (user : ℕ) (nonce raw normalized : String) (movies : List ℕ) {rows : List SearchSession}
      → Reachable rows
      → Reachable (replace user nonce raw normalized movies rows).1
  acted :
      (user : ℕ) (nonce : String) (a : Action) {rows : List SearchSession}
      → Reachable rows
      → Reachable (perform user nonce a rows).1

-- In every table of searches that a run of the service reaches, each user has one row at most, an
-- open movie is one of the results of the search, and a movie that is shown has a poster message.
pub Reachable-IsSound : {rows : List SearchSession} → Reachable rows → IsSound rows
Reachable-IsSound empty = record { unique = tt; rows_ok = tt }
Reachable-IsSound (searched user nonce raw normalized movies {rows} h) =
    replace-IsSound user nonce raw normalized movies rows (Reachable-IsSound h)
Reachable-IsSound (acted user nonce a {rows} h) =
    perform-IsSound user nonce rows (Reachable-IsSound h) a
