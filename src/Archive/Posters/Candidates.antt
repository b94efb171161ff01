-- ===== src/Archive/Posters/Candidates.antt =====
-- services/archive_parser.py: what the detected posters and qualities are made of, and the bound of
-- the score.
use cine_gate.Base.{ℕ, ◌≡◌, ◌≤◌, arith, ◌+◌, ◌*◌, min, String, Option, none, some}
use cine_gate.Models.{ParserStyle}
use cine_gate.Archive.Text.{TextLibrary}
use cine_gate.Archive.Messages.{ArchiveMessage}
use cine_gate.Archive.Posters.{
  PosterCandidate, QualityCandidate, Fields, bounded_caption, count_among, entry_among,
  extract_fields, supporting_poster_fields, title_labels, named_poster, titled_poster,
  detect_poster, quality_of, detect_quality, score_quality,
}

-- What a poster candidate of a message is made of.
abbrev pub IsPosterOf : ArchiveMessage → PosterCandidate → Type 0
IsPosterOf m p = (p.message ≡ m) × (82 ≤ p.confidence) × (p.confidence ≤ 99)

module _ (L : TextLibrary) where
  named_poster-IsPosterOf :
      (m : ArchiveMessage) (fields : Fields) (t : String) (style : ParserStyle) (c : ℕ)
      (p : PosterCandidate)
      → 82 ≤ c
      → c ≤ 99
      → named_poster L m fields t style c ≡ some p
      → IsPosterOf m p
  unfolding named_poster
  named_poster-IsPosterOf m fields t style c p low high e = ground arith

  titled_poster-IsPosterOf :
      (m : ArchiveMessage) (caption : String) (fields : Fields) (o : Option (String × String))
      (p : PosterCandidate)
      → titled_poster L m caption fields o ≡ some p
      → IsPosterOf m p
  unfolding titled_poster
  titled_poster-IsPosterOf m caption fields none p e = cc
  titled_poster-IsPosterOf m caption fields (some (label, t)) p e =
      let supporting = count_among supporting_poster_fields fields in
      let modern = min 99 (88 + min supporting 5 * 2) in
      ground (
        arith,
        named_poster-IsPosterOf m fields t ParserStyle.legacy 88 p (omega arith) (omega arith),
        named_poster-IsPosterOf m fields t ParserStyle.legacy 82 p (omega arith) (omega arith),
        named_poster-IsPosterOf m fields t ParserStyle.modern modern p (omega arith) (omega arith),
      )

  pub detect_poster-IsPosterOf :
      (m : ArchiveMessage) (p : PosterCandidate) → detect_poster L m ≡ some p → IsPosterOf m p
  unfolding detect_poster
  detect_poster-IsPosterOf m p e =
      let caption = bounded_caption m.caption in
      let fields = extract_fields L caption in
      ground (arith, titled_poster-IsPosterOf m caption fields (entry_among title_labels fields) p)

  pub detect_quality-message :
      (m : ArchiveMessage) (q : QualityCandidate) → detect_quality L m ≡ some q → q.message ≡ m
  unfolding detect_quality quality_of
  detect_quality-message m q e = ground arith

  pub score_quality-le :
      (p : PosterCandidate) (q : QualityCandidate) (d : ℕ) → score_quality L p q d ≤ 100
  unfolding score_quality
  score_quality-le p q d = omega arith
