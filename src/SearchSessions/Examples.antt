-- ===== src/SearchSessions/Examples.antt =====
-- The theorems on the search service at concrete requests, and tests of its code.
use cine_gate.Base.{◌≡◌, refl, some, none, [], ◌∷◌, true, false, lookup, put}
use cine_gate.SearchSessions.{
  SearchSession, results, opening, replace, replace_row, new_search, claim_movie, claim_row,
  is_results, contains, reset_opening,
}
use cine_gate.SearchSessions.Invariant.{IsSound}
use cine_gate.SearchSessions.Runs.{
  empty, searched, acted, open_movie, go_back, perform, Reachable-IsSound,
}
use cine_gate.SearchSessions.Nonces.{replace_outdates}
use cine_gate.SearchSessions.Claims.{claim_movie_exclusive, reset_opening-claim_movie}

abbrev search : SearchSession
search = record {
  telegram_user_id = 7;
  nonce = "aaa";
  raw_query = "Alien";
  normalized_query = "alien";
  result_movie_ids = 1 ∷ 2 ∷ [];
  state = results;
  selected_movie_id = none;
  result_message_id = none;
  poster_message_id = none;
}

abbrev opened : SearchSession
opened = record search { state = opening; selected_movie_id = some 2 }

searched_lem : (replace 7 "aaa" "Alien" "alien" (1 ∷ 2 ∷ []) []).1 ≡ search ∷ []
unfolding replace replace_row new_search lookup
searched_lem = refl

search-IsSound : IsSound (search ∷ [])
unfolding replace replace_row new_search lookup
search-IsSound = Reachable-IsSound (searched 7 "aaa" "Alien" "alien" (1 ∷ 2 ∷ []) empty)

claim_lem : claim_movie 7 "aaa" 2 (search ∷ []) ≡ (some opened, opened ∷ [])
unfolding claim_movie claim_row lookup put is_results contains
claim_lem = refl

Reachable-IsSound_example :
    IsSound (perform 7 "aaa" (open_movie 2) (replace 7 "aaa" "Alien" "alien" (1 ∷ 2 ∷ []) []).1).1
Reachable-IsSound_example =
    Reachable-IsSound
      (acted 7 "aaa" (open_movie 2) (searched 7 "aaa" "Alien" "alien" (1 ∷ 2 ∷ []) empty))

replace_outdates_example :
    let after = (replace 7 "bbb" "Heat" "heat" (4 ∷ []) (search ∷ [])).1 in
    perform 7 "aaa" go_back after ≡ (false, after)
replace_outdates_example =
    replace_outdates 7 "bbb" "Heat" "heat" (4 ∷ []) (search ∷ []) search-IsSound "aaa" refl go_back

claim_movie_exclusive_example : claim_movie 7 "aaa" 1 (opened ∷ []) ≡ (none, opened ∷ [])
claim_movie_exclusive_example =
    claim_movie_exclusive 7 "aaa" 2 (search ∷ []) (opened ∷ []) opened search-IsSound claim_lem
      "aaa" 1

reset_opening-claim_movie_example : reset_opening 7 "aaa" 2 (opened ∷ []) ≡ (true, search ∷ [])
reset_opening-claim_movie_example =
    reset_opening-claim_movie 7 "aaa" 2 (search ∷ []) (opened ∷ []) opened search-IsSound claim_lem
