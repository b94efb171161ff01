-- ===== src/Archive/Revisions.antt =====
-- services/archive_indexer.py: the edits of qualities, the conflicts of snapshots and the two entry
-- points leave every movie safe, in any order.
use mathlib.Core.Path.{sym}
use cine_gate.Base.{
  ap, ◌∙◌, ℕ, ◌≡◌, ◌==◌, inl, inr, refl, or_else, Bool, true, ◌&&◌, not, Option, none, some, List,
  [], ◌∷◌, is_some, str_eq, Bool-cases, lookup, lookup-select_first, lookup-key, bind-Ensures,
  if-Ensures, ◌>>=◌, pure,
}
use cine_gate.Models.{Movie, MovieQuality}
use cine_gate.Archive.Text.{TextLibrary}
use cine_gate.Archive.Messages.{ArchiveMessage, ParsedQuality, is_photo, is_media}
use cine_gate.Archive.Parser.{parse}
use cine_gate.Archive.Store.{
  ArchiveMessageSnapshot, Catalog, movie_key, quality_key, movie_at, movie_of, movie_of_quality_at,
  quality_at_message, put_quality,
}
use cine_gate.Archive.Indexer.{result_for_movie}
use cine_gate.Archive.Service.{
  edited_quality, invalid_quality, invalid_poster, ambiguous_movie, reconcile_boundary,
}
use cine_gate.Archive.Edits.{
  parsed_at, answer_edit, conflicting_edit, is_label_taken, reconcile_poster_edit,
  invalidate_quality_edit, accept_edit, edited_to, reconcile_quality_edit, edit_quality,
  edit_message, index_edit, hide_quality, hide_movie, invalidate_snapshot_conflict,
}
use cine_gate.Archive.Catalogs.{Inv, Inv-InvBut, put_movie-Inv, put_quality-InvBut}
use cine_gate.Archive.Safety.{KeepsInv, reconcile_boundary-Inv}
use cine_gate.Archive.EditSafety.{
  set_aside-Inv, settle_then-Inv, parse_then-Inv, index_message-Inv, edited_poster-Inv,
}

-- A quality of the table and its movie.
abbrev IsPair : MovieQuality → Movie → Catalog → Type 0
IsPair q m c =
    (lookup quality_key q.id c.qualities ≡ some q)
    × (q.movie_id ≡ m.id)
    × (lookup movie_key m.id c.movies ≡ some m)

selected-IsPair :
    (channel k : ℕ) (q : MovieQuality) (m : Movie) (c : Catalog)
    → Inv c
    → quality_at_message channel k c.qualities ≡ some q
    → movie_of_quality_at channel k c ≡ some m
    → IsPair q m c
unfolding quality_at_message movie_of_quality_at movie_of
selected-IsPair channel k q m c h at_q at_m =
    let hit : MovieQuality → Bool =
      λ r. r.archive_channel_id == channel && r.archive_message_id == k in
    let joined : lookup movie_key q.movie_id c.movies ≡ some m =
      ap (movie_of c.movies) (sym at_q) ∙ at_m in
    let same : m.id ≡ q.movie_id = lookup-key movie_key q.movie_id c.movies m joined in
    (
      lookup-select_first quality_key (λ r s. true) hit c.qualities q h.0.1 at_q,
      sym same,
      ap (λ j. lookup movie_key j c.movies) same ∙ joined,
    )

module _ (L : TextLibrary) (ns : List ArchiveMessageSnapshot) where
  accept_edit-Inv :
      (m : Movie) (q : MovieQuality) (p : ParsedQuality) (c : Catalog)
      → Inv c
      → IsPair q m c
      → KeepsInv (accept_edit L ns m q p c)
  unfolding result_for_movie
  accept_edit-Inv m q p c h (found, of_m, row) =
      settle_then-Inv L ns m (answer_edit L ns) (put_quality (edited_quality p q) c)
        (put_quality-InvBut m.id (edited_quality p q) q c found of_m of_m (ap is_some row)
          (Inv-InvBut m.id c h))
        (λ n d k. k)

  edited_to-Inv :
      (m : Movie) (q : MovieQuality) (message : ArchiveMessage) (o : Option ParsedQuality)
      (c : Catalog)
      → Inv c
      → IsPair q m c
      → KeepsInv (edited_to L ns m q message o c)
  unfolding invalidate_quality_edit
  edited_to-Inv m q message none c h (found, of_m, row) =
      set_aside-Inv m (invalid_quality message q) q "edited_quality_ambiguous" c h found of_m of_m
        row
  edited_to-Inv m q message (some p) c h pair =
      if-Ensures (λ r d. Inv d)
        (not (str_eq p.quality q.quality) && is_label_taken m q p.quality c.qualities)
        (conflicting_edit L ns m q message c) (accept_edit L ns m q p c)
        (set_aside-Inv m
          (record q { raw_caption = or_else message.caption ""; parser_confidence = 0 }) q
          "edited_quality_conflicts_with_existing_quality" c h pair.0 pair.1 pair.1 pair.2)
        (accept_edit-Inv m q p c h pair)

  reconcile_quality_edit-Inv :
      (m : Movie) (q : MovieQuality) (message : ArchiveMessage) (c : Catalog)
      → Inv c
      → IsPair q m c
      → KeepsInv (reconcile_quality_edit L ns m q message c)
  unfolding reconcile_quality_edit invalidate_quality_edit
  reconcile_quality_edit-Inv m q message c h pair =
      elim (Bool-cases (is_media message.media_kind)) [
        | inl e ↦ rw e (
            parse_then-Inv L ns m (some message.message_id)
              (λ g. edited_to L ns m q message (parsed_at message.message_id g)) c
              (λ g. edited_to-Inv m q message (parsed_at message.message_id g) c h pair))
        | inr e ↦ rw e (
            set_aside-Inv m (invalid_quality message q) q "edited_quality_media_invalid" c h pair.0
              pair.1 pair.1 pair.2)
      ]

  reconcile_poster_edit-Inv :
      (m : Movie) (message : ArchiveMessage) (c : Catalog)
      → Inv c
      → KeepsInv (reconcile_poster_edit L ns m message c)
  unfolding reconcile_poster_edit result_for_movie
  reconcile_poster_edit-Inv m message c h = elim (Bool-cases (is_photo message.media_kind)) [
    | inl e ↦ rw e (edited_poster-Inv L ns m message (parse L 1 (message ∷ [])) c h)
    | inr e ↦ rw e (put_movie-Inv (invalid_poster message m) c (Inv-InvBut m.id c h) tt)
  ]

  edit_quality-Inv :
      (id channel : ℕ) (message : ArchiveMessage) (o : Option MovieQuality) (n : Option Movie)
      (c : Catalog)
      → Inv c
      → ((q : MovieQuality) (m : Movie) → o ≡ some q → n ≡ some m → IsPair q m c)
      → KeepsInv (edit_quality L ns id channel message o n c)
  edit_quality-Inv id channel message (some q) (some m) c h pair =
      reconcile_quality_edit-Inv m q message c h (pair q m refl refl)
  edit_quality-Inv id channel message (some q) none c h pair =
      index_message-Inv L ns id channel message c h
  edit_quality-Inv id channel message none n c h pair =
      index_message-Inv L ns id channel message c h

  edit_message-Inv :
      (id channel : ℕ) (message : ArchiveMessage) (o : Option Movie) (c : Catalog)
      → Inv c
      → KeepsInv (edit_message L ns id channel message o c)
  edit_message-Inv id channel message (some m) c h = reconcile_poster_edit-Inv m message c h
  edit_message-Inv id channel message none c h =
      edit_quality-Inv id channel message
        (quality_at_message channel message.message_id c.qualities)
        (movie_of_quality_at channel message.message_id c) c h
        (λ q m. selected-IsPair channel message.message_id q m c h)

  pub index_edit-Inv :
      (id channel : ℕ) (message : ArchiveMessage) (c : Catalog)
      → Inv c
      → KeepsInv (index_edit L ns id channel message c)
  unfolding index_edit
  index_edit-Inv id channel message c h =
      edit_message-Inv id channel message (movie_at channel message.message_id c.movies) c h

  -- A conflict hides what is attached to the message.
  boundary_then-Inv :
      (channel k : ℕ) (c : Catalog)
      → Inv c
      → KeepsInv ((reconcile_boundary L ns channel k >>= λ r. pure tt) c)
  boundary_then-Inv channel k c h =
      bind-Ensures (λ r d. Inv d) (λ u d. Inv d) (reconcile_boundary L ns channel k) (λ r. pure tt)
        c (reconcile_boundary-Inv L ns channel k c h) (λ r d l. l)

  hide_quality-Inv :
      (channel k : ℕ) (o : Option MovieQuality) (n : Option Movie) (c : Catalog)
      → Inv c
      → ((q : MovieQuality) (m : Movie) → o ≡ some q → n ≡ some m → IsPair q m c)
      → KeepsInv (hide_quality L ns channel k o n c)
  hide_quality-Inv channel k (some q) (some m) c h pair =
      let (found, of_m, row) = pair q m refl refl in
      let hidden : MovieQuality = record q { parser_confidence = 0 } in
      put_movie-Inv (ambiguous_movie m) (put_quality hidden c)
        (put_quality-InvBut m.id hidden q c found of_m of_m (ap is_some row) (Inv-InvBut m.id c h))
        tt
  hide_quality-Inv channel k (some q) none c h pair = boundary_then-Inv channel k c h
  hide_quality-Inv channel k none n c h pair = boundary_then-Inv channel k c h

  hide_movie-Inv :
      (channel k : ℕ) (o : Option Movie) (c : Catalog)
      → Inv c
      → KeepsInv (hide_movie L ns channel k o c)
  hide_movie-Inv channel k (some m) c h =
      put_movie-Inv (ambiguous_movie (record m { parser_confidence = 0 })) c (Inv-InvBut m.id c h)
        tt
  hide_movie-Inv channel k none c h =
      hide_quality-Inv channel k (quality_at_message channel k c.qualities)
        (movie_of_quality_at channel k c) c h (λ q m. selected-IsPair channel k q m c h)

  pub invalidate_snapshot_conflict-Inv :
      (channel k : ℕ) (c : Catalog)
      → Inv c
      → KeepsInv (invalidate_snapshot_conflict L ns channel k c)
  unfolding invalidate_snapshot_conflict
  invalidate_snapshot_conflict-Inv channel k c h =
      hide_movie-Inv channel k (movie_at channel k c.movies) c h
