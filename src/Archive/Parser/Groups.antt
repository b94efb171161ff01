-- ===== src/Archive/Parser/Groups.antt =====
-- services/archive_parser.py: what holds of every group that the parser makes.
use mathlib.Core.Path.{subst, sym}
use cine_gate.Base.{
  ℕ, zero, suc, ◌+◌, ◌≤◌, ◌<◌, ◌≡◌, ◌↔◌, ◌≢◌, inl, inr, refl, arith, leb, ltb, Option, none, some,
  List, [], ◌∷◌, All, All-append, All-order_by, order_by, ok, err, Bool-cases,
}
use cine_gate.Archive.Text.{TextLibrary}
use cine_gate.Archive.Messages.{ArchiveMessage, GroupStatus, ParsedQuality, ParsedMovieGroup}
use cine_gate.Archive.Posters.{
  PosterCandidate, QualityCandidate, detect_poster, detect_quality, score_quality,
}
use cine_gate.Archive.Parser.{
  Groups, GroupBuilder, Scan, new_builder, quality_at, by_quality, group_status, finalize_group,
  closed, parsed_quality, accept_quality, add_scored, add_quality, add_noise, absorb, emit, collect,
  opening, next_scan, closed_by, collect-refused, collect-ordered, with_limit, iter_groups,
}
use cine_gate.Archive.Parser.Labels.{
  HasDistinctLabels, set_quality-HasDistinctLabels, All-set_quality, order_by-HasDistinctLabels,
}
use cine_gate.Archive.Posters.Candidates.{
  IsPosterOf, detect_poster-IsPosterOf, detect_quality-message, score_quality-le,
}

-- A quality of a group stands after the poster, with an accepted score.
abbrev pub IsAccepted : ℕ → ParsedQuality → Type 0
IsAccepted poster q = (poster < q.message_id) × (60 ≤ q.confidence) × (q.confidence ≤ 100)

abbrev pub IsGroup : ParsedMovieGroup → Type 0
IsGroup g =
    All (IsAccepted g.poster_message_id) g.qualities
    × HasDistinctLabels g.qualities
    × ((g.status ≡ GroupStatus.indexed) ↔ (g.qualities ≢ []))
    × (82 ≤ g.poster_confidence)
    × (g.poster_confidence ≤ 99)

abbrev pub IsBuilder : ℕ → GroupBuilder → Type 0
IsBuilder previous b =
    All (IsAccepted b.poster.message.message_id) b.qualities
    × HasDistinctLabels b.qualities
    × (b.poster.message.message_id ≤ previous)
    × (82 ≤ b.poster.confidence)
    × (b.poster.confidence ≤ 99)

abbrev pub IsOpen : ℕ → Option GroupBuilder → Type 0
IsOpen previous none = Unit
IsOpen previous (some b) = IsBuilder previous b

group_status-indexed :
    (qs : List ParsedQuality) (n : ℕ) → (group_status qs n ≡ GroupStatus.indexed) ↔ (qs ≢ [])
unfolding group_status
group_status-indexed [] zero = ground arith
group_status-indexed [] (suc n) = ground arith
group_status-indexed (q ∷ qs) n = ground arith

finalize_group-IsGroup :
    (previous : ℕ) (b : GroupBuilder) → IsBuilder previous b → IsGroup (finalize_group b)
unfolding finalize_group
finalize_group-IsGroup previous b (accepted, distinct, _, low, high) = (
  All-order_by (IsAccepted b.poster.message.message_id) by_quality b.qualities accepted,
  order_by-HasDistinctLabels by_quality b.qualities distinct,
  group_status-indexed (order_by by_quality b.qualities) b.ambiguous_candidates,
  low,
  high,
)

closed-IsGroup :
    (previous : ℕ) (o : Option GroupBuilder) → IsOpen previous o → All IsGroup (closed o)
closed-IsGroup previous none h = tt
closed-IsGroup previous (some b) h = (finalize_group-IsGroup previous b h, tt)

-- A later message.
IsBuilder-later : (p r : ℕ) (b : GroupBuilder) → p ≤ r → IsBuilder p b → IsBuilder r b
IsBuilder-later p r b le (accepted, distinct, before, low, high) =
    (accepted, distinct, omega arith, low, high)

abbrev pub Yields : (ParsedMovieGroup → Type 0) → Groups → Type 0
Yields P (ok gs) = All P gs
Yields P (err e) = Unit

emit-Yields :
    (P : ParsedMovieGroup → Type 0) (gs : List ParsedMovieGroup) (r : Groups)
    → All P gs
    → Yields P r
    → Yields P (emit gs r)
emit-Yields P gs (ok hs) h k = All-append P gs hs h k
emit-Yields P gs (err e) h k = tt

-- A limit of 0 is refused, any other is not looked at.
pub with_limit-Yields :
    (P : ParsedMovieGroup → Type 0) (limit : Option ℕ) (r : Groups)
    → Yields P r
    → Yields P (with_limit limit r)
with_limit-Yields P none r h = h
with_limit-Yields P (some zero) r h = tt
with_limit-Yields P (some (suc k)) r h = h

pub Yields-ok :
    (P : ParsedMovieGroup → Type 0) (r : Groups) (gs : List ParsedMovieGroup)
    → Yields P r
    → r ≡ ok gs
    → All P gs
Yields-ok P r gs h e = subst (Yields P) e h

module _ (L : TextLibrary) (n : ℕ) (limit : Option ℕ) where
  accept_quality-IsBuilder :
      (previous : ℕ) (b : GroupBuilder) (q : ParsedQuality) (old : Option ParsedQuality)
      → IsBuilder previous b
      → IsAccepted b.poster.message.message_id q
      → IsBuilder previous (accept_quality L n limit b q old)
  unfolding accept_quality
  accept_quality-IsBuilder previous b q none (accepted, distinct, before, low, high) fits = (
    All-set_quality (IsAccepted b.poster.message.message_id) q b.qualities fits accepted,
    set_quality-HasDistinctLabels q b.qualities distinct,
    before,
    low,
    high,
  )
  accept_quality-IsBuilder previous b q (some old) (accepted, distinct, before, low, high) fits =
      elim (Bool-cases (ltb old.message_id q.message_id)) [
        | inl e ↦ rw e (
          All-set_quality (IsAccepted b.poster.message.message_id) q b.qualities fits accepted,
          set_quality-HasDistinctLabels q b.qualities distinct,
          before,
          low,
          high,
        )
        | inr e ↦ rw e (accepted, distinct, before, low, high)
      ]

  add_scored-IsBuilder :
      (previous : ℕ) (b : GroupBuilder) (q : QualityCandidate) (score : ℕ)
      → IsBuilder previous b
      → b.poster.message.message_id < q.message.message_id
      → score ≤ 100
      → IsBuilder previous (add_scored L n limit b q score)
  unfolding add_scored parsed_quality
  add_scored-IsBuilder previous b q score h later le = elim (Bool-cases (leb 60 score)) [
    | inl e ↦ rw e (
        accept_quality-IsBuilder previous b (parsed_quality L n limit q score)
          (quality_at q.quality b.qualities) h (later, ground arith, le))
    | inr e ↦ elim (Bool-cases (leb 40 score)) [ inl f ↦ rw (e, f) h | inr f ↦ rw (e, f) h ]
  ]

  -- What a message with an identifier after `previous` does to the open group.
  absorb-IsGroup :
      (m : ArchiveMessage) (previous : ℕ) (poster : Option PosterCandidate)
      (quality : Option QualityCandidate)
      → (current : Option GroupBuilder) → previous < m.message_id
      → ((p : PosterCandidate) → poster ≡ some p → IsPosterOf m p)
      → ((q : QualityCandidate) → quality ≡ some q → q.message ≡ m)
      → IsOpen previous current
      → All IsGroup (absorb L n limit poster quality current).0
        × IsOpen m.message_id (absorb L n limit poster quality current).1
  unfolding absorb new_builder add_quality add_noise
  absorb-IsGroup m previous (some p) quality current less of_poster of_quality h =
      let (same, low, high) = of_poster p refl in
      (closed-IsGroup previous current h, (tt, tt, ground arith, low, high))
  absorb-IsGroup m previous none quality none less of_poster of_quality h = (tt, tt)
  absorb-IsGroup m previous none (some q) (some b) less of_poster of_quality h =
      let same : q.message ≡ m = of_quality q refl in
      let d = b.messages_since_poster + 1 in
      let later : IsBuilder m.message_id b =
        IsBuilder-later previous m.message_id b (omega arith) h in
      (
        tt,
        add_scored-IsBuilder m.message_id (record b { messages_since_poster = d }) q
            (score_quality L b.poster q d) later (rw same (omega (arith, h.2)))
            (score_quality-le L b.poster q d),
      )
  absorb-IsGroup m previous none none (some b) less of_poster of_quality h =
      let later : IsBuilder m.message_id b =
        IsBuilder-later previous m.message_id b (omega arith) h in
      elim (Bool-cases (ltb n (b.noise_messages + 1))) [
        | inl e ↦ rw e ((finalize_group-IsGroup m.message_id (add_noise L n limit b) later, tt), tt)
        | inr e ↦ rw e (tt, later)
      ]

  collect-Yields :
      (ms : List ArchiveMessage) (s : Scan)
      → IsOpen s.previous_message_id s.current
      → Yields IsGroup (collect L n limit ms s)
  unfolding collect
  collect-Yields [] s h = closed-IsGroup s.previous_message_id s.current h
  collect-Yields (m ∷ ms) s h = elim (Bool-cases (leb m.message_id s.previous_message_id)) [
    | inl e ↦ subst (Yields IsGroup) (sym (collect-refused L n limit m ms s e)) tt
    | inr e ↦
        let t : Scan = next_scan L n limit m s in
        let gs : List ParsedMovieGroup = closed_by L n limit m s in
        let kept : All IsGroup gs × IsOpen m.message_id t.current =
          absorb-IsGroup m s.previous_message_id (detect_poster L m) (detect_quality L m) s.current
            (ground arith) (detect_poster-IsPosterOf L m) (detect_quality-message L m) h in
        subst (Yields IsGroup) (sym (collect-ordered L n limit m ms s e))
          (emit-Yields IsGroup gs (collect L n limit ms t) kept.0 (collect-Yields ms t kept.1))
  ]

  -- Of every group that the parser makes, the qualities stand after the poster with scores from 60
  -- to 100, no label occurs twice, the status is `indexed` exactly when there is a quality, and the
  -- confidence is from 82 to 99.
  pub iter_groups-IsGroup :
      (ms : List ArchiveMessage) (gs : List ParsedMovieGroup)
      → iter_groups L n limit ms ≡ ok gs
      → All IsGroup gs
  unfolding iter_groups
  iter_groups-IsGroup ms gs e =
      let made : Groups = collect L n limit ms opening in
      Yields-ok IsGroup (with_limit limit made) gs
        (with_limit-Yields IsGroup limit made (collect-Yields ms opening tt)) e
