-- ===== src/Archive/Parser/Labels.antt =====
-- services/archive_parser.py: the dictionary of qualities and its sort keep one quality per label.
use cine_gate.Base.{
  ◌≡◌, inl, inr, refl, arith, Bool, false, String, none, List, [], ◌∷◌, str_eq, eq_iff, All,
  insert_by, order_by, Bool-cases,
}
use cine_gate.Archive.Messages.{ParsedQuality}
use cine_gate.Archive.Parser.{quality_at, set_quality}

abbrev pub HasDistinctLabels : List ParsedQuality → Type 0
HasDistinctLabels [] = Unit
HasDistinctLabels (q ∷ qs) = (quality_at q.quality qs ≡ none) × HasDistinctLabels qs

-- The dictionary.
quality_at-set_quality :
    (l : String) (q : ParsedQuality) (qs : List ParsedQuality)
    → quality_at l qs ≡ none
    → str_eq q.quality l ≡ false
    → quality_at l (set_quality q qs) ≡ none
unfolding quality_at set_quality
quality_at-set_quality l q [] n d = ground arith
quality_at-set_quality l q (r ∷ rs) n d = ground (arith, quality_at-set_quality l q rs)

pub set_quality-HasDistinctLabels :
    (q : ParsedQuality) (qs : List ParsedQuality)
    → HasDistinctLabels qs
    → HasDistinctLabels (set_quality q qs)
unfolding set_quality quality_at
set_quality-HasDistinctLabels q [] u = (refl, tt)
set_quality-HasDistinctLabels q (r ∷ rs) u = elim (Bool-cases (str_eq r.quality q.quality)) [
  | inl e ↦
      let same : r.quality ≡ q.quality = (eq_iff r.quality q.quality).0 e in
      rw e (cc (u.0, same), u.1)
  | inr e ↦ rw e (
    quality_at-set_quality r.quality q rs u.0
        (ground (arith, eq_iff r.quality q.quality, eq_iff q.quality r.quality)),
    set_quality-HasDistinctLabels q rs u.1,
  )
]

pub All-set_quality :
    (P : ParsedQuality → Type 0) (q : ParsedQuality) (qs : List ParsedQuality)
    → P q
    → All P qs
    → All P (set_quality q qs)
unfolding set_quality
All-set_quality P q [] p h = (p, tt)
All-set_quality P q (r ∷ rs) p h = elim (Bool-cases (str_eq r.quality q.quality)) [
  | inl e ↦ rw e (p, h.1)
  | inr e ↦ rw e (h.0, All-set_quality P q rs p h.1)
]

-- The sort.
quality_at-insert_by :
    (before : ParsedQuality → ParsedQuality → Bool) (l : String) (q : ParsedQuality)
    (qs : List ParsedQuality)
    → quality_at l qs ≡ none
    → str_eq q.quality l ≡ false
    → quality_at l (insert_by before q qs) ≡ none
unfolding quality_at insert_by
quality_at-insert_by before l q [] n d = ground arith
quality_at-insert_by before l q (r ∷ rs) n d = ground (arith, quality_at-insert_by before l q rs)

insert_by-HasDistinctLabels :
    (before : ParsedQuality → ParsedQuality → Bool) (q : ParsedQuality) (qs : List ParsedQuality)
    → quality_at q.quality qs ≡ none
    → HasDistinctLabels qs
    → HasDistinctLabels (insert_by before q qs)
unfolding quality_at insert_by
insert_by-HasDistinctLabels before q [] n u = (refl, tt)
insert_by-HasDistinctLabels before q (r ∷ rs) n u = elim (Bool-cases (before q r)) [
  | inl e ↦ rw e (n, u)
  | inr e ↦ rw e (
    quality_at-insert_by before r.quality q rs u.0
        (ground (arith, eq_iff r.quality q.quality, eq_iff q.quality r.quality)),
    insert_by-HasDistinctLabels before q rs (ground arith) u.1,
  )
]

quality_at-order_by :
    (before : ParsedQuality → ParsedQuality → Bool) (l : String) (qs : List ParsedQuality)
    → quality_at l qs ≡ none
    → quality_at l (order_by before qs) ≡ none
unfolding quality_at order_by
quality_at-order_by before l [] n = refl
quality_at-order_by before l (q ∷ qs) n =
    quality_at-insert_by before l q (order_by before qs)
      (quality_at-order_by before l qs (ground arith)) (ground arith)

pub order_by-HasDistinctLabels :
    (before : ParsedQuality → ParsedQuality → Bool) (qs : List ParsedQuality)
    → HasDistinctLabels qs
    → HasDistinctLabels (order_by before qs)
unfolding order_by
order_by-HasDistinctLabels before [] u = tt
order_by-HasDistinctLabels before (q ∷ qs) u =
    insert_by-HasDistinctLabels before q (order_by before qs)
      (quality_at-order_by before q.quality qs u.0) (order_by-HasDistinctLabels before qs u.1)
