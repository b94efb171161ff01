-- ===== src/Archive/Parser/Order.antt =====
-- services/archive_parser.py: the order of the messages that the parser demands.
use cine_gate.Base.{
  sym, ℕ, ◌≡◌, ◌↔◌, inl, inr, refl, arith, leb, ltb, Bool, true, false, ◌&&◌, none, List, [], ◌∷◌,
  Option, ok, err, Bool-cases,
}
use cine_gate.Archive.Text.{TextLibrary}
use cine_gate.Archive.Messages.{ArchiveMessage, ParsedMovieGroup}
use cine_gate.Archive.Parser.{
  Groups, ParserError, Scan, emit, collect, opening, next_scan, closed_by, collect-refused,
  collect-ordered, iter_groups, parse,
}

-- The identifiers ascend from after the given one.
pub are_ascending : ℕ → List ArchiveMessage → Bool
are_ascending k [] = true
are_ascending k (m ∷ ms) = ltb k m.message_id && are_ascending m.message_id ms

abbrev pub succeeds : Groups → Bool
succeeds (ok gs) = true
succeeds (err e) = false

succeeds-emit : (gs : List ParsedMovieGroup) (r : Groups) → succeeds (emit gs r) ≡ succeeds r
succeeds-emit gs (ok hs) = refl
succeeds-emit gs (err e) = refl

-- The one error of the loop.
abbrev IsOrderError : Groups → Type 0
IsOrderError (ok gs) = Unit
IsOrderError (err e) = e ≡ ParserError.unordered_messages

IsOrderError-emit :
    (gs : List ParsedMovieGroup) (r : Groups) → IsOrderError r → IsOrderError (emit gs r)
IsOrderError-emit gs (ok hs) h = tt
IsOrderError-emit gs (err e) h = h

succeeds-IsOrderError :
    (r : Groups) → IsOrderError r → (succeeds r ≡ false) ↔ (r ≡ err ParserError.unordered_messages)
succeeds-IsOrderError (ok gs) h = ground arith
succeeds-IsOrderError (err e) h = ground arith

module _ (L : TextLibrary) (n : ℕ) (limit : Option ℕ) where
  succeeds-collect :
      (ms : List ArchiveMessage) (s : Scan)
      → (succeeds (collect L n limit ms s) ≡ are_ascending s.previous_message_id ms)
        × IsOrderError (collect L n limit ms s)
  unfolding collect are_ascending
  succeeds-collect [] s = (refl, tt)
  succeeds-collect (m ∷ ms) s = elim (Bool-cases (leb m.message_id s.previous_message_id)) [
    | inl e ↦ rw (collect-refused L n limit m ms s e) (ground arith, refl)
    | inr e ↦
        let gs : List ParsedMovieGroup = closed_by L n limit m s in
        let rest : Groups = collect L n limit ms (next_scan L n limit m s) in
        let (asc, order) = succeeds-collect ms (next_scan L n limit m s) in
        rw (collect-ordered L n limit m ms s e)
          (ground (arith, succeeds-emit gs rest, asc), IsOrderError-emit gs rest order)
  ]

-- Parsing succeeds exactly when the identifiers of the messages ascend from 1 or more, and ends in
-- the order error exactly when they do not.
pub parse-are_ascending :
    (L : TextLibrary) (n : ℕ) (ms : List ArchiveMessage)
    → (succeeds (parse L n ms) ≡ are_ascending 0 ms)
      × ((are_ascending 0 ms ≡ false) ↔ (parse L n ms ≡ err ParserError.unordered_messages))
unfolding parse iter_groups
parse-are_ascending L n ms =
    let (asc, order) = succeeds-collect L n none ms opening in
    (asc, rw (sym asc) (succeeds-IsOrderError (collect L n none ms opening) order))
