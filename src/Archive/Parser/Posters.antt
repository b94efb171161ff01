-- ===== src/Archive/Parser/Posters.antt =====
-- services/archive_parser.py: the groups against the posters of the messages.
use mathlib.Core.List.{append_assoc, append-nil}
use mathlib.Core.Path.{subst, sym, ◌∙◌}
use cine_gate.Base.{
  ℕ, ◌≡◌, inl, inr, refl, ap, arith, leb, Option, none, some, List, [], ◌∷◌, ◌++◌, zero, suc, ◌+◌,
  ok, err, Bool-cases, Option-cases, is_some, if◌then◌else◌,
}
use cine_gate.Archive.Text.{TextLibrary}
use cine_gate.Archive.Messages.{ArchiveMessage, ParsedMovieGroup}
use cine_gate.Archive.Posters.{
  PosterCandidate, QualityCandidate, detect_poster, detect_quality, score_quality,
}
use cine_gate.Archive.Posters.Candidates.{detect_poster-IsPosterOf}
use cine_gate.Archive.Parser.{
  Groups, GroupBuilder, Scan, new_builder, finalize_group, closed, accept_quality, add_scored,
  add_quality, add_noise, absorb, emit, collect, opening, next_scan, closed_by, collect-refused,
  collect-ordered, with_limit, iter_groups,
}

-- The posters of the groups.
abbrev pub poster_ids : List ParsedMovieGroup → List ℕ
poster_ids [] = []
poster_ids (g ∷ gs) = g.poster_message_id ∷ poster_ids gs

-- The poster of the group that is open.
abbrev open_id : Option GroupBuilder → List ℕ
open_id none = []
open_id (some b) = b.poster.message.message_id ∷ []

abbrev found_id : Option PosterCandidate → List ℕ
found_id none = []
found_id (some p) = p.message.message_id ∷ []

abbrev Lists : Groups → List ℕ → Type 0
Lists (ok gs) ids = poster_ids gs ≡ ids
Lists (err e) ids = Unit

poster_ids-append :
    (gs hs : List ParsedMovieGroup) → poster_ids (gs ++ hs) ≡ poster_ids gs ++ poster_ids hs
poster_ids-append [] hs = refl
poster_ids-append (g ∷ gs) hs = ap (λ ids. g.poster_message_id ∷ ids) (poster_ids-append gs hs)

emit-Lists :
    (gs : List ParsedMovieGroup) (r : Groups) (ids : List ℕ)
    → Lists r ids
    → Lists (emit gs r) (poster_ids gs ++ ids)
emit-Lists gs (ok hs) ids h = poster_ids-append gs hs ∙ ap (λ is. poster_ids gs ++ is) h
emit-Lists gs (err e) ids h = tt

with_limit-Lists :
    (limit : Option ℕ) (r : Groups) (ids : List ℕ) → Lists r ids → Lists (with_limit limit r) ids
with_limit-Lists none r ids h = h
with_limit-Lists (some zero) r ids h = tt
with_limit-Lists (some (suc k)) r ids h = h

module _ (L : TextLibrary) where
  -- The messages that are posters, in their order.
  pub posters : List ArchiveMessage → List ℕ
  posters [] = []
  posters (m ∷ ms) =
      let rest = posters ms in if is_some (detect_poster L m) then m.message_id ∷ rest else rest

  posters-found_id :
      (m : ArchiveMessage) (ms : List ArchiveMessage)
      → posters (m ∷ ms) ≡ found_id (detect_poster L m) ++ posters ms
  unfolding posters
  posters-found_id m ms = elim (Option-cases (detect_poster L m)) [
    | inl e ↦ rw e refl
    | inr (p, e) ↦
        let same : p.message ≡ m = (detect_poster-IsPosterOf L m p e).0 in rw (e, same) refl
  ]

  module _ (n : ℕ) (limit : Option ℕ) where
    add_scored-poster :
        (b : GroupBuilder) (q : QualityCandidate) (score : ℕ)
        → (add_scored L n limit b q score).poster ≡ b.poster
    unfolding add_scored accept_quality
    add_scored-poster b q score = ground arith

    add_quality-poster :
        (b : GroupBuilder) (q : QualityCandidate) → (add_quality L n limit b q).poster ≡ b.poster
    unfolding add_quality
    add_quality-poster b q =
        let distance = b.messages_since_poster + 1 in
        add_scored-poster (record b { messages_since_poster = distance }) q
          (score_quality L b.poster q distance)

    closed-poster_ids :
        (current : Option GroupBuilder) → poster_ids (closed current) ≡ open_id current
    unfolding finalize_group
    closed-poster_ids none = refl
    closed-poster_ids (some b) = refl

    -- A message closes the group that was open, or leaves it open, unless it is a poster.
    absorb-poster_ids :
        (p : Option PosterCandidate) (q : Option QualityCandidate) (current : Option GroupBuilder)
        → poster_ids (absorb L n limit p q current).0 ++ open_id (absorb L n limit p q current).1
          ≡ open_id current ++ found_id p
    unfolding absorb new_builder add_noise finalize_group
    absorb-poster_ids (some p) q current =
        ap (λ is. is ++ p.message.message_id ∷ []) (closed-poster_ids current)
    absorb-poster_ids none q none = ground arith
    absorb-poster_ids none (some q) (some b) =
        ap (λ (p : PosterCandidate). p.message.message_id ∷ []) (add_quality-poster b q)
    absorb-poster_ids none none (some b) = ground arith

    collect-Lists :
        (ms : List ArchiveMessage) (s : Scan)
        → Lists (collect L n limit ms s) (open_id s.current ++ posters ms)
    unfolding collect posters
    collect-Lists [] s = closed-poster_ids s.current ∙ sym (append-nil (open_id s.current))
    collect-Lists (m ∷ ms) s = elim (Bool-cases (leb m.message_id s.previous_message_id)) [
      | inl e ↦ rw (collect-refused L n limit m ms s e) tt
      | inr e ↦
          let gs : List ParsedMovieGroup = closed_by L n limit m s in
          let t : Scan = next_scan L n limit m s in
          let found : List ℕ = found_id (detect_poster L m) in
          let same : poster_ids gs ++ (open_id t.current ++ posters ms)
              ≡ open_id s.current ++ posters (m ∷ ms) =
            sym (append_assoc (poster_ids gs) (open_id t.current) (posters ms))
            ∙ ap (λ is. is ++ posters ms)
                (absorb-poster_ids (detect_poster L m) (detect_quality L m) s.current)
            ∙ append_assoc (open_id s.current) found (posters ms)
            ∙ ap (λ is. open_id s.current ++ is) (sym (posters-found_id m ms)) in
          rw (collect-ordered L n limit m ms s e) (
            subst (Lists (emit gs (collect L n limit ms t))) same (
              emit-Lists gs (collect L n limit ms t) (open_id t.current ++ posters ms)
                (collect-Lists ms t)))
    ]

    -- The groups that the parser makes are of the messages that are detected as posters: each of
    -- these has one group, in the order of the messages.
    pub iter_groups-posters :
        (ms : List ArchiveMessage) (gs : List ParsedMovieGroup)
        → iter_groups L n limit ms ≡ ok gs
        → poster_ids gs ≡ posters ms
    unfolding iter_groups
    iter_groups-posters ms gs e =
        subst (λ r. Lists r (posters ms)) e
          (with_limit-Lists limit (collect L n limit ms opening) (posters ms)
            (collect-Lists ms opening))
