-- ===== src/Archive/EditSafety.antt =====
-- services/archive_indexer.py: a posted message and an edited poster leave every movie safe.
use mathlib.Core.Path.{subst, sym}
use cine_gate.Base.{
  ap, ℕ, ◌≡◌, ◌==◌, inl, inr, refl, arith, ltb, leb, String, Bool, true, false, ◌&&◌, Option, none,
  some, List, [], ◌∷◌, is_some, str_eq, if◌then◌else◌, Bool-cases, Option-cases, lookup,
  select_first_sat, lookup-select_first, ok, err, Ensures, bind-Ensures, if-Ensures, ◌>>=◌,
}
use cine_gate.Models.{Movie, MovieQuality}
use cine_gate.Archive.Text.{TextLibrary, extract_quality}
use cine_gate.Archive.Messages.{ArchiveMessage, ParsedQuality, ParsedMovieGroup, is_photo, is_media}
use cine_gate.Archive.Parser.{Groups, parse}
use cine_gate.Archive.Store.{
  ArchiveMessageSnapshot, ArchiveIndexResult, Catalog, IndexError, Indexing, movie_key, quality_key,
  movie_before, put_movie, put_quality, parsed_key, scalar,
}
use cine_gate.Archive.Indexer.{
  result_for_movie, write_quality, upsert_statement, overwritten, new_quality, is_ambiguous_note,
  is_message_taken,
}
use cine_gate.Archive.Service.{
  edited_title, invalid_poster, ambiguous_movie, parse_movie_group, settle, upsert_quality,
  quality_after, quality_in, quality_in_group, upsert_parsed, answer_quality, ambiguous_if,
  set_aside,
}
use cine_gate.Archive.Edits.{answer_poster, edited_poster, posted, index_message}
use cine_gate.Archive.Catalogs.{
  Inv, InvBut, Inv-InvBut, put_movie-InvBut, put_movie-Inv, put_quality-InvBut,
  insert_quality-InvBut,
}
use cine_gate.Archive.Safety.{
  KeepsInv, IsRow, selected-IsRow, parse_movie_group-Ensures, settle-Inv, reconcile_boundary-Inv,
  upsert_poster-Inv,
}

-- The statement of the upsert, for a movie of the table.
write_quality-InvBut :
    (m : Movie) (new : MovieQuality) (o : Option MovieQuality) (c : Catalog)
    → Inv c
    → lookup movie_key m.id c.movies ≡ some m
    → new.movie_id ≡ m.id
    → ((old : MovieQuality)
        → o ≡ some old
        → (lookup quality_key old.id c.qualities ≡ some old) × (old.movie_id ≡ m.id))
    → Ensures (λ u d. InvBut m.id d) (write_quality new o c)
unfolding write_quality
write_quality-InvBut m new none c h row of_m found =
    elim (Option-cases (lookup quality_key new.id c.qualities)) [
      | inl e ↦ rw e (
          if-Ensures (λ u d. InvBut m.id d) (is_message_taken new c.qualities)
            (err IndexError.integrity_error, c)
            (ok true, record c { qualities = new ∷ c.qualities }) tt
            (insert_quality-InvBut m.id new c e of_m (ap is_some row) (Inv-InvBut m.id c h)))
      | inr (q, e) ↦ rw (e, Ensures) tt
    ]
write_quality-InvBut m new (some old) c h row of_m found =
    let (there, of_old) = found old refl in
    let kept = Inv-InvBut m.id c h in
    if-Ensures (λ u d. InvBut m.id d) (ltb old.archive_message_id new.archive_message_id)
      (if is_message_taken (overwritten new old) c.qualities
        then (err IndexError.integrity_error, c)
        else (ok true, put_quality (overwritten new old) c))
      (ok false, c)
      (if-Ensures (λ u d. InvBut m.id d) (is_message_taken (overwritten new old) c.qualities)
        (err IndexError.integrity_error, c) (ok true, put_quality (overwritten new old) c) tt
        (put_quality-InvBut m.id (overwritten new old) old c there of_old of_old (ap is_some row)
          kept))
      kept

upsert_statement-InvBut :
    (m : Movie) (new : MovieQuality) (c : Catalog)
    → Inv c
    → lookup movie_key m.id c.movies ≡ some m
    → new.movie_id ≡ m.id
    → Ensures (λ u d. InvBut m.id d) (upsert_statement new c)
unfolding upsert_statement
upsert_statement-InvBut m new c h row of_m =
    let hit : MovieQuality → Bool =
      λ q. q.movie_id == new.movie_id && str_eq q.quality new.quality in
    write_quality-InvBut m new (scalar hit c.qualities) c h row of_m (λ old e. (
      lookup-select_first quality_key (λ r s. true) hit c.qualities old h.0.1 e,
      ground (arith, of_m, select_first_sat (λ r s. true) hit c.qualities old e),
    ))

-- A quality of the movie changes and the movie is set aside.
pub set_aside-Inv :
    (m : Movie) (q old : MovieQuality) (text : String) (c : Catalog)
    → Inv c
    → lookup quality_key q.id c.qualities ≡ some old
    → q.movie_id ≡ m.id
    → old.movie_id ≡ m.id
    → lookup movie_key m.id c.movies ≡ some m
    → KeepsInv (set_aside m q text c)
unfolding result_for_movie
set_aside-Inv m q old text c h found of_m was row =
    put_movie-Inv (ambiguous_movie m) (put_quality q c)
      (put_quality-InvBut m.id q old c found of_m was (ap is_some row) (Inv-InvBut m.id c h)) tt

module _ (L : TextLibrary) (ns : List ArchiveMessageSnapshot) where
  -- Settling a movie, then answering.
  pub settle_then-Inv :
      (m : Movie) (f : Movie → Indexing ArchiveIndexResult) (c : Catalog)
      → InvBut m.id c
      → ((n : Movie) (d : Catalog) → Inv d → KeepsInv (f n d))
      → KeepsInv ((settle L ns m >>= f) c)
  settle_then-Inv m f c h k =
      bind-Ensures (λ n d. Inv d) (λ r d. Inv d) (settle L ns m) f c (settle-Inv L ns m c h) k

  upsert_parsed-Inv :
      (id channel : ℕ) (m : Movie) (p : ParsedQuality) (c : Catalog)
      → Inv c
      → lookup movie_key m.id c.movies ≡ some m
      → KeepsInv (upsert_parsed L ns id channel m p c)
  unfolding upsert_parsed result_for_movie
  upsert_parsed-Inv id channel m p c h row =
      bind-Ensures (λ u d. InvBut m.id d) (λ r d. Inv d)
        (upsert_statement (new_quality id channel m.id p))
        (λ changed. settle L ns m >>= answer_quality L ns changed) c
        (upsert_statement-InvBut m (new_quality id channel m.id p) c h row refl)
        (λ changed d k. settle_then-Inv m (answer_quality L ns changed) d k (λ n e l. l))

  ambiguous_if-Inv :
      (b : Bool) (m : Movie) (c : Catalog) → Inv c → KeepsInv (ambiguous_if L ns b m c)
  unfolding result_for_movie
  ambiguous_if-Inv true m c h = h
  ambiguous_if-Inv false m c h = h

  quality_in-Inv :
      (id channel : ℕ) (message : ArchiveMessage) (m : Movie) (g : ParsedMovieGroup)
      (o : Option ParsedQuality) (c : Catalog)
      → Inv c
      → lookup movie_key m.id c.movies ≡ some m
      → KeepsInv (quality_in L ns id channel message m g o c)
  quality_in-Inv id channel message m g none c h row =
      ambiguous_if-Inv (is_ambiguous_note message.message_id g.diagnostics) m c h
  quality_in-Inv id channel message m g (some p) c h row = upsert_parsed-Inv id channel m p c h row

  quality_in_group-Inv :
      (id channel : ℕ) (message : ArchiveMessage) (m : Movie) (o : Option ParsedMovieGroup)
      (c : Catalog)
      → Inv c
      → lookup movie_key m.id c.movies ≡ some m
      → KeepsInv (quality_in_group L ns id channel message m o c)
  quality_in_group-Inv id channel message m none c h row = h
  quality_in_group-Inv id channel message m (some g) c h row =
      quality_in-Inv id channel message m g (lookup parsed_key message.message_id g.qualities) c h
        row

  -- What follows the reading of a group starts in the same tables.
  pub parse_then-Inv :
      (m : Movie) (through : Option ℕ) (f : Option ParsedMovieGroup → Indexing ArchiveIndexResult)
      (c : Catalog)
      → ((g : Option ParsedMovieGroup) → KeepsInv (f g c))
      → KeepsInv ((parse_movie_group L ns m through >>= f) c)
  parse_then-Inv m through f c k =
      bind-Ensures (λ g d. d ≡ c) (λ r d. Inv d) (parse_movie_group L ns m through) f c
        (parse_movie_group-Ensures L ns m through c)
        (λ g d same. subst (λ e. KeepsInv (f g e)) (sym same) (k g))

  quality_after-Inv :
      (id channel : ℕ) (message : ArchiveMessage) (o : Option Movie) (c : Catalog)
      → Inv c
      → ((m : Movie) → o ≡ some m → IsRow L ns m c)
      → KeepsInv (quality_after L ns id channel message o c)
  quality_after-Inv id channel message none c h row = h
  quality_after-Inv id channel message (some m) c h row =
      parse_then-Inv m (some message.message_id) (quality_in_group L ns id channel message m) c
        (λ g. quality_in_group-Inv id channel message m g c h (row m refl).0)

  upsert_quality-Inv :
      (id channel : ℕ) (message : ArchiveMessage) (c : Catalog)
      → Inv c
      → KeepsInv (upsert_quality L ns id channel message c)
  unfolding upsert_quality movie_before
  upsert_quality-Inv id channel message c h =
      quality_after-Inv id channel message (movie_before channel message.message_id c.movies) c h
        (λ m e.
          selected-IsRow L ns (λ a b. leb b.poster_message_id a.poster_message_id)
            (λ a. a.archive_channel_id == channel && ltb a.poster_message_id message.message_id) m c
            h e)

  posted-Inv :
      (id channel : ℕ) (message : ArchiveMessage) (gs : Groups) (c : Catalog)
      → Inv c
      → KeepsInv (posted L ns id channel message gs c)
  posted-Inv id channel message (ok []) c h =
      reconcile_boundary-Inv L ns channel message.message_id c h
  posted-Inv id channel message (ok (g ∷ gs)) c h = upsert_poster-Inv L ns id channel g c h
  posted-Inv id channel message (err e) c h = tt

  pub index_message-Inv :
      (id channel : ℕ) (message : ArchiveMessage) (c : Catalog)
      → Inv c
      → KeepsInv (index_message L ns id channel message c)
  unfolding index_message
  index_message-Inv id channel message c h = elim (Bool-cases (is_photo message.media_kind)) [
    | inl e ↦ rw e (posted-Inv id channel message (parse L 1 (message ∷ [])) c h)
    | inr e ↦
        elim (Bool-cases
          (is_media message.media_kind && is_some (extract_quality L message.caption))) [
            | inl f ↦ rw (e, f) (upsert_quality-Inv id channel message c h)
            | inr f ↦ rw (e, f) (reconcile_boundary-Inv L ns channel message.message_id c h)
          ]
  ]

  -- The edits.
  pub edited_poster-Inv :
      (m : Movie) (message : ArchiveMessage) (gs : Groups) (c : Catalog)
      → Inv c
      → KeepsInv (edited_poster L ns m message gs c)
  unfolding result_for_movie
  edited_poster-Inv m message (ok []) c h =
      put_movie-Inv (invalid_poster message m) c (Inv-InvBut m.id c h) tt
  edited_poster-Inv m message (ok (g ∷ gs)) c h =
      settle_then-Inv (edited_title g m) (answer_poster L ns) (put_movie (edited_title g m) c)
        (put_movie-InvBut (edited_title g m) c (Inv-InvBut m.id c h)) (λ n d k. k)
  edited_poster-Inv m message (err e) c h = tt
