-- ===== src/Archive/Availability.antt =====
-- services/archive_indexer.py with services/rewards.py: what the index promises to the deliveries.
use cine_gate.Base.{
  ℕ, ◌<◌, ◌⊎◌, none, refl, str_eq, ◌≡◌, ◌≢◌, ◌==◌, inl, inr, arith, Bool, true, false, Option, some,
  List, [], ◌∷◌, Bool-cases, lookup, lookup-key, count, All-lookup,
}
use cine_gate.Models.{
  Movie, MovieQuality, MovieStatus, RewardSession, UnavailableReason, archive_movie_unsafe,
}
use cine_gate.Rewards.Rows.{availability_reason, is_indexed}
use cine_gate.Archive.Text.{TextLibrary}
use cine_gate.Archive.Store.{ArchiveStore, movie_key, quality_key, is_invalid_of, quality_count}
use cine_gate.Archive.Catalogs.{IsEarned, IsSafe}
use cine_gate.Archive.Runs.{IsSafeStore, ArchiveRuns, ArchiveRuns-IsSafeStore}

count-lookup :
    (p : MovieQuality → Bool) (k : ℕ) (q : MovieQuality) (qs : List MovieQuality)
    → lookup quality_key k qs ≡ some q
    → count p qs ≡ 0
    → p q ≡ false
unfolding lookup count
count-lookup p k q [] e n = cc
count-lookup p k q (r ∷ rs) e n = ground (arith, count-lookup p k q rs)

indexed-IsEarned :
    (s : MovieStatus) (confidence total invalid : ℕ)
    → is_indexed s ≡ true
    → IsEarned s confidence total invalid
    → IsEarned MovieStatus.indexed confidence total invalid
unfolding is_indexed
indexed-IsEarned MovieStatus.indexed confidence total invalid e h = h
indexed-IsEarned MovieStatus.pending confidence total invalid e h = cc
indexed-IsEarned MovieStatus.orphan confidence total invalid e h = cc
indexed-IsEarned MovieStatus.ambiguous confidence total invalid e h = cc

is_indexed-eq_true : (s : MovieStatus) → is_indexed s ≡ true → s ≡ MovieStatus.indexed
unfolding is_indexed
is_indexed-eq_true MovieStatus.indexed e = refl
is_indexed-eq_true MovieStatus.pending e = cc
is_indexed-eq_true MovieStatus.orphan e = cc
is_indexed-eq_true MovieStatus.ambiguous e = cc

-- A quality of an indexed movie has a confidence.
IsSafe-confidence :
    (m : Movie) (k : ℕ) (q : MovieQuality) (qs : List MovieQuality)
    → IsSafe qs m
    → is_indexed m.status ≡ true
    → lookup quality_key k qs ≡ some q
    → q.movie_id ≡ m.id
    → (q.parser_confidence == 0) ≡ false
unfolding is_indexed
IsSafe-confidence m k q qs safe indexed e of_m =
    let earned : IsEarned MovieStatus.indexed m.parser_confidence (quality_count m.id qs)
        (count (is_invalid_of m.id) qs) =
      indexed-IsEarned m.status m.parser_confidence (quality_count m.id qs)
        (count (is_invalid_of m.id) qs) indexed safe in
    ground (arith, count-lookup (is_invalid_of m.id) k q qs e earned.2)

abbrev pub availability : RewardSession → ArchiveStore → Option UnavailableReason
availability r s =
    availability_reason r (lookup movie_key r.movie_id s.database.movies)
      (lookup quality_key r.movie_quality_id s.database.qualities)

-- The movie and the quality of the session are there, and the quality is still the one it is bound to.
pub record IsBoundTo (r : RewardSession) (s : ArchiveStore) (m : Movie) (q : MovieQuality)
    : Type 0 where
  pub movie : lookup movie_key r.movie_id s.database.movies ≡ some m
  pub quality : lookup quality_key r.movie_quality_id s.database.qualities ≡ some q
  pub of_movie : q.movie_id ≡ r.movie_id
  pub same_label : str_eq q.quality r.quality ≡ true

-- The movie is `indexed` with a confidence, and so are all of its qualities.
pub record IsSure (s : ArchiveStore) (m : Movie) (q : MovieQuality) : Type 0 where
  pub indexed : m.status ≡ MovieStatus.indexed
  pub movie_confidence : 0 < m.parser_confidence
  pub quality_confidence : 0 < q.parser_confidence
  pub all_sure : count (is_invalid_of m.id) s.database.qualities ≡ 0

-- What the reason of a session that is still bound comes to.
bound-availability :
    (r : RewardSession) (s : ArchiveStore) (m : Movie) (q : MovieQuality)
    → IsSafeStore s
    → IsBoundTo r s m q
    → ((availability r s ≡ none) × IsSure s m q)
      ⊎ ((availability r s ≡ some archive_movie_unsafe) × (m.status ≢ MovieStatus.indexed))
unfolding availability_reason is_indexed
bound-availability r s m q h b = elim (Bool-cases (is_indexed m.status)) [
  | inl e ↦
      let qs = s.database.qualities in
      let safe : IsSafe qs m =
        All-lookup movie_key (IsSafe qs) r.movie_id s.database.movies m h.1 b.movie in
      let of_m : q.movie_id ≡ m.id =
        ground (arith, b.of_movie, lookup-key movie_key r.movie_id s.database.movies m b.movie) in
      let sure : (q.parser_confidence == 0) ≡ false =
        IsSafe-confidence m r.movie_quality_id q qs safe e b.quality of_m in
      let earned : IsEarned MovieStatus.indexed m.parser_confidence (quality_count m.id qs)
          (count (is_invalid_of m.id) qs) =
        indexed-IsEarned m.status m.parser_confidence (quality_count m.id qs)
          (count (is_invalid_of m.id) qs) e safe in
      inl (
        rw (b.movie, b.quality, b.same_label, e, sure) (ground (arith, b.of_movie)),
        record {
          indexed = is_indexed-eq_true m.status e;
          movie_confidence = earned.0;
          quality_confidence = ground arith;
          all_sure = earned.2;
        },
      )
  | inr e ↦ inr (
    rw (b.movie, b.quality, b.same_label, e) (ground (arith, b.of_movie)),
    λ indexed. ground arith,
  )
]

-- After any posts and edits of a safe store, for a reward session that is still bound to its
-- quality, with its movie in the store: either no reason of unavailability is given, and the movie
-- is `indexed` and it and all of its qualities have a confidence; or the reason given is the movie,
-- which is not `indexed`.
pub ArchiveRuns-availability :
    (L : TextLibrary) {s t : ArchiveStore} (r : RewardSession) (m : Movie) (q : MovieQuality)
    → IsSafeStore s
    → ArchiveRuns L s t
    → IsBoundTo r t m q
    → ((availability r t ≡ none) × IsSure t m q)
      ⊎ ((availability r t ≡ some archive_movie_unsafe) × (m.status ≢ MovieStatus.indexed))
ArchiveRuns-availability L {s} {t} r m q h run bound =
    bound-availability r t m q (ArchiveRuns-IsSafeStore L h run) bound
