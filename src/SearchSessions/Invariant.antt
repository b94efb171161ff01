-- ===== src/SearchSessions/Invariant.antt =====
-- What every method of the search service keeps: the columns of a row agree with its state.
use cine_gate.Base.{
  ℕ, ◌≡◌, ◌⊎◌, ◌==◌, is_some, is_none, Bool, true, false, ◌&&◌, String, Option, none, some, List,
  arith, All, update_where, put, IsUnique, put-IsUnique, All-put, All-update_where,
  update_where-IsUnique,
}
use cine_gate.SearchSessions.{
  results, opening, movie, returning, SearchSession, user_key, is_results, is_opening, is_movie,
  is_returning, contains, is_selected, new_search, renew, is_opening_of, is_returning_of,
}

-- The selected movie is one of the results of the search.
unfoldable pub is_result : Option ℕ → List ℕ → Bool
is_result none ms = false
is_result (some m) ms = contains m ms

pub record SearchOk (r : SearchSession) : Type 0 where
  pub resting : r.state ≡ results → is_none r.selected_movie_id ≡ true
  pub chosen : is_results r.state ≡ false → is_result r.selected_movie_id r.result_movie_ids ≡ true
  pub shown : (r.state ≡ movie) ⊎ (r.state ≡ returning) → is_some r.poster_message_id ≡ true

pub record IsSound (rows : List SearchSession) : Type 0 where
  pub unique : IsUnique user_key rows
  pub rows_ok : All SearchOk rows

-- An `UPDATE` of one user's row.
pub update-IsSound :
    (user : ℕ) (guard : SearchSession → Bool) (f : SearchSession → SearchSession)
    → ((r : SearchSession) → user_key (f r) ≡ user_key r)
    → ((r : SearchSession) → guard r ≡ true → SearchOk r → SearchOk (f r))
    → (rows : List SearchSession) → IsSound rows
    → IsSound (update_where (λ r. r.telegram_user_id == user && guard r) f rows)
update-IsSound user guard f same keep rows v =
    let hit : SearchSession → Bool = λ r. r.telegram_user_id == user && guard r in
    record {
      unique = update_where-IsUnique user_key hit f same rows v.unique;
      rows_ok =
          All-update_where SearchOk hit f (λ r h o. keep r (ground (arith, h)) o) rows v.rows_ok;
    }

pub put-IsSound :
    (r : SearchSession) (rows : List SearchSession)
    → SearchOk r
    → IsSound rows
    → IsSound (put user_key r rows)
put-IsSound r rows o v = record {
  unique = put-IsUnique user_key r rows v.unique;
  rows_ok = All-put user_key SearchOk r rows v.rows_ok o;
}

module _ (r : SearchSession) (o : SearchOk r) where
  pub set_result-SearchOk : (message : ℕ) → SearchOk (record r { result_message_id = some message })
  set_result-SearchOk message = record { resting = o.resting; chosen = o.chosen; shown = o.shown }

  pub complete-SearchOk :
      (nonce : String) (m poster : ℕ)
      → is_opening_of nonce m r ≡ true
      → SearchOk
          (record r { state = movie; poster_message_id = some poster; result_message_id = none })
  unfolding is_opening is_results is_selected
  complete-SearchOk nonce m poster h = ground arith

  pub reset-SearchOk : SearchOk (record r { state = results; selected_movie_id = none })
  unfolding is_results
  reset-SearchOk = ground arith

  pub complete_back-SearchOk :
      (message : ℕ)
      → SearchOk (record r {
        state = results;
        selected_movie_id = none;
        result_message_id = some message;
        poster_message_id = none;
      })
  unfolding is_results
  complete_back-SearchOk message = ground arith

  pub reset_returning-SearchOk :
      (nonce : String) → is_returning_of nonce r ≡ true → SearchOk (record r { state = movie })
  unfolding is_returning is_results
  reset_returning-SearchOk nonce h = ground arith

  pub open-SearchOk :
      (m : ℕ)
      → contains m r.result_movie_ids ≡ true
      → SearchOk (record r { state = opening; selected_movie_id = some m })
  unfolding is_results is_result
  open-SearchOk m h = ground arith

  pub back-SearchOk : is_movie r.state ≡ true → SearchOk (record r { state = returning })
  unfolding is_results is_movie
  back-SearchOk h = ground arith

pub renew-SearchOk :
    (nonce raw normalized : String) (movies : List ℕ) (r : SearchSession)
    → SearchOk (renew nonce raw normalized movies r)
unfolding renew is_results
renew-SearchOk nonce raw normalized movies r = ground arith

pub new_search-SearchOk :
    (user : ℕ) (nonce raw normalized : String) (movies : List ℕ)
    → SearchOk (new_search user nonce raw normalized movies)
unfolding new_search is_results
new_search-SearchOk user nonce raw normalized movies = ground arith
