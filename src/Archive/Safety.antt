-- ===== src/Archive/Safety.antt =====
-- services/archive_indexer.py: the operations on a movie leave every movie safe.
use mathlib.Core.Path.{subst, sym}
use cine_gate.Base.{
  ℕ, ◌≡◌, ◌==◌, inl, inr, refl, arith, ltb, leb, String, Bool, ◌&&◌, ◌||◌, Option, none, some, List,
  [], ◌∷◌, is_some, Bool-cases, Option-cases, lookup, count, select_first, All-select_first,
  lookup-select_first, Result, ok, err, Ensures, bind-Ensures, if-Ensures, modify, ◌>>=◌, pure,
}
use cine_gate.Models.{Movie, MovieQuality, MovieStatus}
use cine_gate.Archive.Text.{TextLibrary}
use cine_gate.Archive.Messages.{ParsedQuality, ParsedMovieGroup}
use cine_gate.Archive.Parser.{Groups, first_group}
use cine_gate.Archive.Store.{
  ArchiveMessageSnapshot, ignored_result, IndexAction, Catalog, IndexError, movie_key,
  is_invalid_of, quality_count, has_conflict, movie_before, movie_at, movie_of_quality_at,
  put_movie, group_messages,
}
use cine_gate.Archive.Indexer.{
  matching_group, revalidated, refreshed_status, qualities_of, result_for_movie, or_duplicate,
  or_other, insert_movie, new_movie, duplicate_result,
}
use cine_gate.Archive.Service.{
  parse_movie_group, revalidate_with, revalidate_attached_qualities, refreshed,
  refresh_movie_status, settle, settle_before, reconcile_boundary, closed_poster, closed_status,
  upsert_poster, after_previous, insert_poster, from_previous,
}
use cine_gate.Archive.Catalogs.{
  IsEarned, IsSafe, Inv, InvBut, Inv-InvBut, put_movie-Inv, update_of-InvBut, insert_movie-Inv,
}

-- The answer may be any.
abbrev pub KeepsInv : {A : Type 0} → Result IndexError A × Catalog → Type 0
KeepsInv r = Ensures (λ a c. Inv c) r

revalidated-same :
    (ps : List ParsedQuality) (q : MovieQuality)
    → ((revalidated ps q).movie_id ≡ q.movie_id) × ((revalidated ps q).id ≡ q.id)
unfolding revalidated
revalidated-same ps q = ground arith

refreshed_status-IsEarned :
    (confidence total invalid : ℕ) (conflict : Bool)
    → IsEarned (refreshed_status confidence total invalid conflict) confidence total invalid
unfolding refreshed_status
refreshed_status-IsEarned confidence total invalid conflict =
    elim (Bool-cases (leb confidence 0 || ltb 0 invalid || conflict)) [
      | inl e ↦ rw e tt
      | inr e ↦ elim (Bool-cases (ltb 0 total)) [
        | inl f ↦ rw (e, f) (ground arith, ground arith, ground arith)
        | inr f ↦ rw (e, f) tt
      ]
    ]

-- Reading leaves the tables as they are.
matching_group-Ensures :
    (m : Movie) (gs : Groups) (c : Catalog) → Ensures (λ g d. d ≡ c) (matching_group m gs c)
unfolding matching_group
matching_group-Ensures m (ok []) c = refl
matching_group-Ensures m (ok (g ∷ gs)) c = refl
matching_group-Ensures m (err e) c = tt

or_duplicate-Ensures : (o : Option Movie) (c : Catalog) → Ensures (λ r d. d ≡ c) (or_duplicate o c)
unfolding result_for_movie
or_duplicate-Ensures none c = refl
or_duplicate-Ensures (some m) c = refl

or_duplicate-state : (o : Option Movie) (c : Catalog) → (or_duplicate o c).1 ≡ c
unfolding result_for_movie
or_duplicate-state none c = refl
or_duplicate-state (some m) c = refl

pub duplicate_result-Ensures :
    (channel k : ℕ) (c : Catalog) → Ensures (λ r d. d ≡ c) (duplicate_result channel k c)
unfolding duplicate_result
duplicate_result-Ensures channel k c =
    or_duplicate-Ensures (or_other (movie_at channel k c.movies) (movie_of_quality_at channel k c))
      c

pub duplicate_result-state : (channel k : ℕ) (c : Catalog) → (duplicate_result channel k c).1 ≡ c
unfolding duplicate_result
duplicate_result-state channel k c =
    or_duplicate-state (or_other (movie_at channel k c.movies) (movie_of_quality_at channel k c)) c

same-Inv :
    {A : Type 0} (c : Catalog) (r : Result IndexError A × Catalog)
    → Inv c
    → Ensures (λ a d. d ≡ c) r
    → KeepsInv r
same-Inv c (ok a, d) h same = subst Inv (sym same) h
same-Inv c (err e, d) h same = tt

pub duplicate_result-Inv :
    (channel k : ℕ) (c : Catalog) → Inv c → KeepsInv (duplicate_result channel k c)
duplicate_result-Inv channel k c h =
    same-Inv c (duplicate_result channel k c) h (duplicate_result-Ensures channel k c)

closed_status-IsEarned :
    (s : MovieStatus) (confidence total invalid : ℕ)
    → IsEarned s confidence total invalid
    → IsEarned (closed_status s total) confidence total invalid
closed_status-IsEarned MovieStatus.pending confidence total invalid h = rw h tt
closed_status-IsEarned MovieStatus.indexed confidence total invalid h = h
closed_status-IsEarned MovieStatus.orphan confidence total invalid h = h
closed_status-IsEarned MovieStatus.ambiguous confidence total invalid h = h

module _ (L : TextLibrary) (ns : List ArchiveMessageSnapshot) where
  pub parse_movie_group-Ensures :
      (m : Movie) (through : Option ℕ) (c : Catalog)
      → Ensures (λ g d. d ≡ c) (parse_movie_group L ns m through c)
  unfolding parse_movie_group
  parse_movie_group-Ensures m through c =
      let groups = first_group L 1 (some 32) (group_messages m through c.movies ns) in
      if-Ensures (λ g d. d ≡ c) (leb m.parser_confidence 0) (ok none, c) (matching_group m groups c)
        refl (matching_group-Ensures m groups c)

  refresh_movie_status-Inv :
      (m : Movie) (c : Catalog) → InvBut m.id c → KeepsInv (refresh_movie_status L ns m c)
  unfolding refresh_movie_status
  refresh_movie_status-Inv m c h = put_movie-Inv (refreshed L ns m c) c h (
      refreshed_status-IsEarned m.parser_confidence (quality_count m.id c.qualities)
        (count (is_invalid_of m.id) c.qualities) (has_conflict m c.movies ns))

  revalidate-InvBut :
      (m : Movie) (c : Catalog)
      → InvBut m.id c
      → Ensures (λ _ d. InvBut m.id d) (revalidate_attached_qualities L ns m c)
  unfolding revalidate_attached_qualities
  revalidate-InvBut m c h =
      bind-Ensures (λ g d. d ≡ c) (λ _ d. InvBut m.id d) (parse_movie_group L ns m none)
        (λ g. modify (revalidate_with L ns m g)) c (parse_movie_group-Ensures m none c)
        (λ g d same.
          let k : InvBut m.id d = subst (InvBut m.id) (sym same) h in
          update_of-InvBut m.id (revalidated (qualities_of g)) d
            (λ q. (revalidated-same (qualities_of g) q).0)
            (λ q. (revalidated-same (qualities_of g) q).1) k)

  pub settle-Inv : (m : Movie) (c : Catalog) → InvBut m.id c → KeepsInv (settle L ns m c)
  settle-Inv m c h =
      bind-Ensures (λ _ d. InvBut m.id d) (λ n d. Inv d) (revalidate_attached_qualities L ns m)
        (λ _. refresh_movie_status L ns m) c (revalidate-InvBut m c h)
        (λ _ d k. refresh_movie_status-Inv m d k)

  -- A movie of the table, and what the invariant says of it.
  abbrev pub IsRow : Movie → Catalog → Type 0
  IsRow m c = (lookup movie_key m.id c.movies ≡ some m) × IsSafe c.qualities m

  pub selected-IsRow :
      (before : Movie → Movie → Bool) (p : Movie → Bool) (m : Movie) (c : Catalog)
      → Inv c
      → select_first before p c.movies ≡ some m
      → IsRow m c
  selected-IsRow before p m c ((movies, _, _), h) e = (
    lookup-select_first movie_key before p c.movies m movies e,
    (All-select_first (IsSafe c.qualities) before p c.movies m h e).0,
  )

  settle_before-Inv : (o : Option Movie) (c : Catalog) → Inv c → KeepsInv (settle_before L ns o c)
  settle_before-Inv none c h = h
  settle_before-Inv (some m) c h =
      bind-Ensures (λ n d. Inv d) (λ r d. Inv d) (settle L ns m) (λ _. pure ignored_result) c
        (settle-Inv m c (Inv-InvBut m.id c h)) (λ n d k. k)

  pub reconcile_boundary-Inv :
      (channel k : ℕ) (c : Catalog) → Inv c → KeepsInv (reconcile_boundary L ns channel k c)
  unfolding reconcile_boundary
  reconcile_boundary-Inv channel k c h = settle_before-Inv (movie_before channel k c.movies) c h

  pub result_for_movie-Inv :
      (m : Movie) (a : IndexAction) (d : Option String) (c : Catalog)
      → Inv c
      → KeepsInv (result_for_movie m a d c)
  unfolding result_for_movie
  result_for_movie-Inv m a d c h = h

  -- The movie before a poster is closed: a pending one has no qualities.
  closed_poster-Inv :
      (m : Movie) (c : Catalog) → Inv c → IsRow m c → Inv (put_movie (closed_poster m c) c)
  closed_poster-Inv m c h row = put_movie-Inv (closed_poster m c) c (Inv-InvBut m.id c h) (
      closed_status-IsEarned m.status m.parser_confidence (quality_count m.id c.qualities)
        (count (is_invalid_of m.id) c.qualities) row.1)

  -- The insert of a poster, then what the movie before it becomes.
  insert_movie-Ensures :
      (m : Movie) (c : Catalog)
      → m.status ≡ MovieStatus.pending
      → Inv c
      → KeepsInv (insert_movie m c)
  unfolding insert_movie
  insert_movie-Ensures m c pending h = elim (Option-cases (lookup movie_key m.id c.movies)) [
    | inl e ↦ rw (e, Ensures) (insert_movie-Inv m c e pending h)
    | inr (n, e) ↦ rw (e, Ensures) tt
  ]

  after_previous-Inv :
      (id channel : ℕ) (g : ParsedMovieGroup) (o : Option Movie) (c : Catalog)
      → Inv c
      → KeepsInv (after_previous L ns id channel g o c)
  unfolding result_for_movie
  after_previous-Inv id channel g none c h =
      bind-Ensures (λ u d. Inv d) (λ r d. Inv d) (insert_movie (new_movie id channel g))
        (λ _. result_for_movie (new_movie id channel g) IndexAction.poster_upserted none) c
        (insert_movie-Ensures (new_movie id channel g) c refl h) (λ u d k. k)
  after_previous-Inv id channel g (some m) c h =
      bind-Ensures (λ u d. Inv d) (λ r d. Inv d) (insert_movie (new_movie id channel g))
        (λ _. settle L ns m >>= λ _.
          result_for_movie (new_movie id channel g) IndexAction.poster_upserted none)
        c (insert_movie-Ensures (new_movie id channel g) c refl h)
        (λ u d k.
          bind-Ensures (λ n e. Inv e) (λ r e. Inv e) (settle L ns m)
            (λ _. result_for_movie (new_movie id channel g) IndexAction.poster_upserted none) d
            (settle-Inv m d (Inv-InvBut m.id d k)) (λ n e l. l))

  insert_poster-Inv :
      (id channel : ℕ) (g : ParsedMovieGroup) (o : Option Movie) (c : Catalog)
      → Inv c
      → KeepsInv (insert_poster L ns id channel g o c)
  insert_poster-Inv id channel g o c h =
      if-Ensures (λ r d. Inv d) (is_some (movie_at channel g.poster_message_id c.movies))
        (duplicate_result channel g.poster_message_id c) (after_previous L ns id channel g o c)
        (duplicate_result-Inv channel g.poster_message_id c h)
        (after_previous-Inv id channel g o c h)

  from_previous-Inv :
      (id channel : ℕ) (g : ParsedMovieGroup) (o : Option Movie) (c : Catalog)
      → Inv c
      → ((m : Movie) → o ≡ some m → IsRow m c)
      → KeepsInv (from_previous L ns id channel g o c)
  from_previous-Inv id channel g none c h row = insert_poster-Inv id channel g none c h
  from_previous-Inv id channel g (some m) c h row =
      insert_poster-Inv id channel g (some (closed_poster m c)) (put_movie (closed_poster m c) c)
        (closed_poster-Inv m c h (row m refl))

  pub upsert_poster-Inv :
      (id channel : ℕ) (g : ParsedMovieGroup) (c : Catalog)
      → Inv c
      → KeepsInv (upsert_poster L ns id channel g c)
  unfolding upsert_poster movie_before
  upsert_poster-Inv id channel g c h =
      from_previous-Inv id channel g (movie_before channel g.poster_message_id c.movies) c h (λ m e.
        selected-IsRow (λ a b. leb b.poster_message_id a.poster_message_id)
          (λ a. a.archive_channel_id == channel && ltb a.poster_message_id g.poster_message_id) m c
          h e)
