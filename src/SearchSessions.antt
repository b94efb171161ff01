-- ===== src/SearchSessions.antt =====
-- services/search_sessions.py: SearchSessionService, the one search of a user that is on the screen.
--
-- Each method is one transaction on the table `user_search_sessions`, whose primary key is the user.
-- The nonce that `secrets.token_urlsafe` makes is an argument of `replace`.
pub mod Invariant
pub mod Runs
pub mod Nonces
pub mod Claims
mod Examples
use cine_gate.Base.{
  ℕ, ◌≡◌, ◌==◌, str_eq, ltb, if◌then◌else◌, Bool, true, false, ◌&&◌, ◌||◌, not, String, Option,
  none, some, List, [], ◌∷◌, refl, update_where, select_first, count, lookup, put,
}

pub data SearchState : Type 0 where
  results opening movie returning : SearchState

-- A row of the table, which is also what `_snapshot` copies of it.
pub record SearchSession : Type 0 where
  pub telegram_user_id : ℕ
  pub nonce : String
  pub raw_query : String
  pub normalized_query : String
  pub result_movie_ids : List ℕ
  pub state : SearchState
  pub selected_movie_id : Option ℕ
  pub result_message_id : Option ℕ
  pub poster_message_id : Option ℕ

pub record SearchSessionReplacement : Type 0 where
  pub session : SearchSession
  pub previous_result_message_id : Option ℕ
  pub previous_poster_message_id : Option ℕ

abbrev pub user_key : SearchSession → ℕ
user_key r = r.telegram_user_id

abbrev pub select_user : ℕ → List SearchSession → Option SearchSession
select_user user rows = lookup user_key user rows

pub is_results : SearchState → Bool
is_results results = true
is_results _ = false

pub is_opening : SearchState → Bool
is_opening opening = true
is_opening _ = false

pub is_movie : SearchState → Bool
is_movie movie = true
is_movie _ = false

pub is_returning : SearchState → Bool
is_returning returning = true
is_returning _ = false

-- `movie_id in current.result_movie_ids`.
pub contains : ℕ → List ℕ → Bool
contains m [] = false
contains m (n ∷ ns) = n == m || contains m ns

pub is_selected : ℕ → Option ℕ → Bool
is_selected m none = false
is_selected m (some n) = n == m

pub new_search : ℕ → String → String → String → List ℕ → SearchSession
new_search user nonce raw normalized movies = record {
  telegram_user_id = user;
  nonce = nonce;
  raw_query = raw;
  normalized_query = normalized;
  result_movie_ids = movies;
  state = results;
  selected_movie_id = none;
  result_message_id = none;
  poster_message_id = none;
}

-- The row of another search of the same user, overwritten.
pub renew : String → String → String → List ℕ → SearchSession → SearchSession
renew nonce raw normalized movies r = record r {
  nonce = nonce;
  raw_query = raw;
  normalized_query = normalized;
  result_movie_ids = movies;
  state = results;
  selected_movie_id = none;
  result_message_id = none;
  poster_message_id = none;
}

pub replace_row :
    ℕ
    → String
    → String
    → String
    → List ℕ
    → Option SearchSession
    → List SearchSession
    → SearchSessionReplacement × List SearchSession
unfolding new_search renew
replace_row user nonce raw normalized movies none rows =
    let row = new_search user nonce raw normalized movies in
    (
      record {
        session = row;
        previous_result_message_id = none;
        previous_poster_message_id = none;
      },
      row ∷ rows,
    )
replace_row user nonce raw normalized movies (some r) rows =
    let row = renew nonce raw normalized movies r in
    (
      record {
        session = row;
        previous_result_message_id = r.result_message_id;
        previous_poster_message_id = r.poster_message_id;
      },
      put user_key row rows,
    )

pub replace :
    ℕ
    → String
    → String
    → String
    → List ℕ
    → List SearchSession
    → SearchSessionReplacement × List SearchSession
unfolding replace_row
replace user nonce raw normalized movies rows =
    replace_row user nonce raw normalized movies (select_user user rows) rows

abbrev pub is_current : ℕ → String → SearchSession → Bool
is_current user nonce r = r.telegram_user_id == user && str_eq r.nonce nonce

pub get_current : ℕ → String → List SearchSession → Option SearchSession
get_current user nonce rows = select_first (λ _ _. true) (is_current user nonce) rows

-- `UPDATE ... WHERE telegram_user_id = user AND guard ... RETURNING`: whether a row was written.
abbrev pub update_user :
    ℕ
    → (SearchSession → Bool)
    → (SearchSession → SearchSession)
    → List SearchSession
    → Bool × List SearchSession
update_user user guard f rows =
    let p : SearchSession → Bool = λ r. r.telegram_user_id == user && guard r in
    (ltb 0 (count p rows), update_where p f rows)

pub set_result_message : ℕ → String → ℕ → List SearchSession → Bool × List SearchSession
unfolding is_results
set_result_message user nonce message =
    update_user user (λ r. str_eq r.nonce nonce && is_results r.state)
      (λ r. record r { result_message_id = some message })

pub claim_row :
    String
    → ℕ
    → Option SearchSession
    → List SearchSession
    → Option SearchSession × List SearchSession
unfolding is_results contains
claim_row nonce m none rows = (none, rows)
claim_row nonce m (some r) rows =
    if not (str_eq r.nonce nonce) || not (is_results r.state) || not (contains m r.result_movie_ids)
    then (none, rows)
    else let row = record r { state = opening; selected_movie_id = some m } in
      (some row, put user_key row rows)

pub claim_movie : ℕ → String → ℕ → List SearchSession → Option SearchSession × List SearchSession
unfolding claim_row
claim_movie user nonce m rows = claim_row nonce m (select_user user rows) rows

abbrev pub is_opening_of : String → ℕ → SearchSession → Bool
is_opening_of nonce m r =
    str_eq r.nonce nonce && is_opening r.state && is_selected m r.selected_movie_id

pub complete_movie : ℕ → String → ℕ → ℕ → List SearchSession → Bool × List SearchSession
unfolding is_opening is_selected
complete_movie user nonce m poster =
    update_user user (is_opening_of nonce m)
      (λ r. record r { state = movie; poster_message_id = some poster; result_message_id = none })

pub reset_opening : ℕ → String → ℕ → List SearchSession → Bool × List SearchSession
unfolding is_opening is_selected
reset_opening user nonce m =
    update_user user (is_opening_of nonce m)
      (λ r. record r { state = results; selected_movie_id = none })

pub back_row :
    String → Option SearchSession → List SearchSession → Option SearchSession × List SearchSession
unfolding is_movie
back_row nonce none rows = (none, rows)
back_row nonce (some r) rows =
    if not (str_eq r.nonce nonce) || not (is_movie r.state)
    then (none, rows)
    else let row = record r { state = returning } in (some row, put user_key row rows)

pub claim_back : ℕ → String → List SearchSession → Option SearchSession × List SearchSession
unfolding back_row
claim_back user nonce rows = back_row nonce (select_user user rows) rows

abbrev pub is_returning_of : String → SearchSession → Bool
is_returning_of nonce r = str_eq r.nonce nonce && is_returning r.state

pub complete_back : ℕ → String → ℕ → List SearchSession → Bool × List SearchSession
unfolding is_returning
complete_back user nonce message = update_user user (is_returning_of nonce) (λ r. record r {
  state = results;
  selected_movie_id = none;
  result_message_id = some message;
  poster_message_id = none;
})

pub reset_returning : ℕ → String → List SearchSession → Bool × List SearchSession
unfolding is_returning
reset_returning user nonce =
    update_user user (is_returning_of nonce) (λ r. record r { state = movie })
