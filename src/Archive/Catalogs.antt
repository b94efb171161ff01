-- ===== src/Archive/Catalogs.antt =====
-- services/archive_indexer.py: the invariant of the tables of movies and qualities, and what writes
-- to one movie and its qualities leave of it.
use mathlib.Core.Path.{subst, sym}
use cine_gate.Base.{
  ap, ◌∙◌, ℕ, ◌≡◌, ◌<◌, ◌==◌, inl, inr, refl, arith, true, false, none, some, List, [], ◌∷◌,
  is_some, if◌then◌else◌, Bool-cases, All, All-put, All-update_where, IsUnique, lookup, put, count,
  update_where, put-IsUnique, update_where-IsUnique, count-put,
}
use cine_gate.Models.{Movie, MovieQuality, MovieStatus}
use cine_gate.Archive.Store.{Catalog, movie_key, quality_key, is_of, is_invalid_of, quality_count}

-- What a status says of the confidence of the movie, and of its qualities: how many, how many invalid.
abbrev pub IsEarned : MovieStatus → ℕ → ℕ → ℕ → Type 0
IsEarned MovieStatus.indexed confidence total invalid =
    (0 < confidence) × (0 < total) × (invalid ≡ 0)
IsEarned MovieStatus.pending confidence total invalid = total ≡ 0
IsEarned _ confidence total invalid = Unit

abbrev pub IsSafe : List MovieQuality → Movie → Type 0
IsSafe qs m =
    IsEarned m.status m.parser_confidence (quality_count m.id qs) (count (is_invalid_of m.id) qs)

-- The movie is safe, or is the one of the transaction.
abbrev pub IsSafeBut : ℕ → List MovieQuality → Movie → Type 0
IsSafeBut k qs m = if m.id == k then Unit else IsSafe qs m

abbrev pub HasMovie : List Movie → MovieQuality → Type 0
HasMovie ms q = is_some (lookup movie_key q.movie_id ms) ≡ true

abbrev Keyed : Catalog → Type 0
Keyed c =
    IsUnique movie_key c.movies
    × IsUnique quality_key c.qualities
    × All (HasMovie c.movies) c.qualities

abbrev pub Inv : Catalog → Type 0
Inv c = Keyed c × All (IsSafe c.qualities) c.movies

abbrev pub InvBut : ℕ → Catalog → Type 0
InvBut k c = Keyed c × All (IsSafeBut k c.qualities) c.movies

All-map :
    {R : Type 0} (P Q : R → Type 0) → ((r : R) → P r → Q r) → (rs : List R) → All P rs → All Q rs
All-map P Q f [] h = tt
All-map P Q f (r ∷ rs) h = (f r h.0, All-map P Q f rs h.1)

IsSafe-IsSafeBut : (k : ℕ) (qs : List MovieQuality) (m : Movie) → IsSafe qs m → IsSafeBut k qs m
IsSafe-IsSafeBut k qs m h = elim (Bool-cases (m.id == k)) [ inl e ↦ rw e tt | inr e ↦ rw e h ]

pub Inv-InvBut : (k : ℕ) (c : Catalog) → Inv c → InvBut k c
Inv-InvBut k c h = (
  h.0,
  All-map (IsSafe c.qualities) (IsSafeBut k c.qualities) (IsSafe-IsSafeBut k c.qualities) c.movies
      h.1,
)

-- The tables of qualities agree on every movie but `k`.
abbrev SameBut : ℕ → List MovieQuality → List MovieQuality → Type 0
SameBut k qs rs =
    (j : ℕ)
    → (j == k) ≡ false
    → (quality_count j rs ≡ quality_count j qs)
      × (count (is_invalid_of j) rs ≡ count (is_invalid_of j) qs)

SameBut-IsSafeBut :
    (k : ℕ) (qs rs : List MovieQuality) (m : Movie)
    → SameBut k qs rs
    → IsSafeBut k qs m
    → IsSafeBut k rs m
SameBut-IsSafeBut k qs rs m same h = elim (Bool-cases (m.id == k)) [
  | inl e ↦ rw e tt
  | inr e ↦
      let (total, invalid) = same m.id e in
      let safe : IsSafe qs m = subst (λ b. if b then Unit else IsSafe qs m) e h in
      rw (e, total, invalid) safe
]

SameBut-movies :
    (k : ℕ) (qs rs : List MovieQuality) (ms : List Movie)
    → SameBut k qs rs
    → All (IsSafeBut k qs) ms
    → All (IsSafeBut k rs) ms
SameBut-movies k qs rs ms same h =
    All-map (IsSafeBut k qs) (IsSafeBut k rs) (λ m. SameBut-IsSafeBut k qs rs m same) ms h

-- The statement that changes the qualities of the movie.
update_of-SameBut :
    (k : ℕ) (f : MovieQuality → MovieQuality)
    → ((q : MovieQuality) → (f q).movie_id ≡ q.movie_id)
    → (qs : List MovieQuality) → SameBut k qs (update_where (is_of k) f qs)
unfolding quality_count update_where count
update_of-SameBut k f keep [] j other = (refl, refl)
update_of-SameBut k f keep (q ∷ qs) j other =
    let (total, invalid) = update_of-SameBut k f keep qs j other in
    (ground (arith, keep q, total), ground (arith, keep q, invalid))

put-SameBut :
    (k : ℕ) (q old : MovieQuality) (qs : List MovieQuality)
    → lookup quality_key q.id qs ≡ some old
    → q.movie_id ≡ k
    → old.movie_id ≡ k
    → SameBut k qs (put quality_key q qs)
unfolding quality_count
put-SameBut k q old qs found of_k was_k j other = (
  ground (arith, count-put quality_key (is_of j) q old qs found),
  ground (arith, count-put quality_key (is_invalid_of j) q old qs found),
)

insert-SameBut :
    (k : ℕ) (q : MovieQuality) (qs : List MovieQuality) → q.movie_id ≡ k → SameBut k qs (q ∷ qs)
unfolding quality_count count
insert-SameBut k q qs of_k j other = (ground arith, ground arith)

-- A row written back leaves the movies there are.
has-put :
    (k : ℕ) (m : Movie) (ms : List Movie)
    → is_some (lookup movie_key k (put movie_key m ms)) ≡ is_some (lookup movie_key k ms)
unfolding lookup put
has-put k m [] = refl
has-put k m (n ∷ ns) = ground (arith, has-put k m ns)

put_movie-HasMovie :
    (m : Movie) (ms : List Movie) (qs : List MovieQuality)
    → All (HasMovie ms) qs
    → All (HasMovie (put movie_key m ms)) qs
put_movie-HasMovie m ms qs h =
    All-map (HasMovie ms) (HasMovie (put movie_key m ms)) (λ q e. has-put q.movie_id m ms ∙ e) qs h

-- The movie of the transaction is written.
absent-IsSafe :
    (k : ℕ) (qs : List MovieQuality) (ms : List Movie)
    → lookup movie_key k ms ≡ none
    → All (IsSafeBut k qs) ms
    → All (IsSafe qs) ms
unfolding lookup
absent-IsSafe k qs [] n h = tt
absent-IsSafe k qs (m ∷ ms) n h =
    let apart : (m.id == k) ≡ false = ground arith in
    (
      subst (λ b. if b then Unit else IsSafe qs m) apart h.0,
      absent-IsSafe k qs ms (ground arith) h.1,
    )

pub settled :
    (m : Movie) (qs : List MovieQuality) (ms : List Movie)
    → IsUnique movie_key ms
    → All (IsSafeBut m.id qs) ms
    → IsSafe qs m
    → All (IsSafe qs) (put movie_key m ms)
unfolding put
settled m qs [] u h safe = tt
settled m qs (n ∷ ns) u h safe = elim (Bool-cases (n.id == m.id)) [
  | inl e ↦
      let same : n.id ≡ m.id = ground arith in
      rw e (safe, absent-IsSafe m.id qs ns (sym (ap (λ k. lookup movie_key k ns) same) ∙ u.0) h.1)
  | inr e ↦ rw e (subst (λ b. if b then Unit else IsSafe qs n) e h.0, settled m qs ns u.1 h.1 safe)
]

IsSafeBut-own : (m : Movie) (qs : List MovieQuality) → IsSafeBut m.id qs m
IsSafeBut-own m qs = let own : (m.id == m.id) ≡ true = ground arith in rw own tt

pub put_movie-InvBut :
    (m : Movie) (c : Catalog)
    → InvBut m.id c
    → InvBut m.id (record c { movies = put movie_key m c.movies })
put_movie-InvBut m c ((movies, qualities, linked), h) = (
  (
    put-IsUnique movie_key m c.movies movies,
    qualities,
    put_movie-HasMovie m c.movies c.qualities linked,
  ),
  All-put movie_key (IsSafeBut m.id c.qualities) m c.movies h (IsSafeBut-own m c.qualities),
)

pub put_movie-Inv :
    (m : Movie) (c : Catalog)
    → InvBut m.id c
    → IsSafe c.qualities m
    → Inv (record c { movies = put movie_key m c.movies })
put_movie-Inv m c ((movies, qualities, linked), h) safe = (
  (
    put-IsUnique movie_key m c.movies movies,
    qualities,
    put_movie-HasMovie m c.movies c.qualities linked,
  ),
  settled m c.qualities c.movies movies h safe,
)

pub update_of-InvBut :
    (k : ℕ) (f : MovieQuality → MovieQuality) (c : Catalog)
    → ((q : MovieQuality) → (f q).movie_id ≡ q.movie_id)
    → ((q : MovieQuality) → (f q).id ≡ q.id)
    → InvBut k c
    → InvBut k (record c { qualities = update_where (is_of k) f c.qualities })
update_of-InvBut k f c keep same ((movies, qualities, linked), h) = (
  (
    movies,
    update_where-IsUnique quality_key (is_of k) f same c.qualities qualities,
    All-update_where (HasMovie c.movies) (is_of k) f (λ q hit has. rw (keep q) has) c.qualities
        linked,
  ),
  SameBut-movies k c.qualities (update_where (is_of k) f c.qualities) c.movies
      (update_of-SameBut k f keep c.qualities) h,
)

pub put_quality-InvBut :
    (k : ℕ) (q old : MovieQuality) (c : Catalog)
    → lookup quality_key q.id c.qualities ≡ some old
    → q.movie_id ≡ k
    → old.movie_id ≡ k
    → is_some (lookup movie_key k c.movies) ≡ true
    → InvBut k c
    → InvBut k (record c { qualities = put quality_key q c.qualities })
put_quality-InvBut k q old c found of_k was_k has ((movies, qualities, linked), h) = (
  (
    movies,
    put-IsUnique quality_key q c.qualities qualities,
    All-put quality_key (HasMovie c.movies) q c.qualities linked (rw of_k has),
  ),
  SameBut-movies k c.qualities (put quality_key q c.qualities) c.movies
      (put-SameBut k q old c.qualities found of_k was_k) h,
)

pub insert_quality-InvBut :
    (k : ℕ) (q : MovieQuality) (c : Catalog)
    → lookup quality_key q.id c.qualities ≡ none
    → q.movie_id ≡ k
    → is_some (lookup movie_key k c.movies) ≡ true
    → InvBut k c
    → InvBut k (record c { qualities = q ∷ c.qualities })
insert_quality-InvBut k q c fresh of_k has ((movies, qualities, linked), h) = (
  (movies, (fresh, qualities), (rw of_k has, linked)),
  SameBut-movies k c.qualities (q ∷ c.qualities) c.movies (insert-SameBut k q c.qualities of_k) h,
)

-- A movie that is not in the table has no qualities.
unlinked :
    (k : ℕ) (ms : List Movie) (qs : List MovieQuality)
    → lookup movie_key k ms ≡ none
    → All (HasMovie ms) qs
    → quality_count k qs ≡ 0
unfolding quality_count count
unlinked k ms [] n h = refl
unlinked k ms (q ∷ qs) n h = elim (Bool-cases (q.movie_id == k)) [
  | inl e ↦
      let same : q.movie_id ≡ k = ground arith in
      ground (arith, subst (λ j. is_some (lookup movie_key j ms) ≡ true) same h.0, n)
  | inr e ↦ ground (arith, unlinked k ms qs n h.1)
]

more_movies :
    (m : Movie) (ms : List Movie) (qs : List MovieQuality)
    → All (HasMovie ms) qs
    → All (HasMovie (m ∷ ms)) qs
unfolding lookup
more_movies m ms qs h = All-map (HasMovie ms) (HasMovie (m ∷ ms)) (λ q e. ground arith) qs h

-- A pending movie under a new identifier.
pub insert_movie-Inv :
    (m : Movie) (c : Catalog)
    → lookup movie_key m.id c.movies ≡ none
    → m.status ≡ MovieStatus.pending
    → Inv c
    → Inv (record c { movies = m ∷ c.movies })
insert_movie-Inv m c fresh pending ((movies, qualities, linked), h) = (
  ((fresh, movies), qualities, more_movies m c.movies c.qualities linked),
  (rw pending (unlinked m.id c.movies c.qualities fresh linked), h),
)
