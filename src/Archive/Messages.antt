-- ===== src/Archive/Messages.antt =====
-- domain/archive.py: the messages of the archive channel and the groups that the parser makes.
use cine_gate.Base.{ℕ, Bool, true, false, String, Option, List}
use cine_gate.Models.{ParserStyle}

pub data MediaKind : Type 0 where
  photo video document other : MediaKind

pub data GroupStatus : Type 0 where
  indexed orphan ambiguous : GroupStatus

-- The identifier is positive.
pub record ArchiveMessage : Type 0 where
  pub message_id : ℕ
  pub media_kind : MediaKind
  pub caption : Option String
  pub edited_at : Option ℕ

pub record ParsedQuality : Type 0 where
  pub message_id : ℕ
  pub quality : String
  pub raw_caption : String
  pub raw_title : Option String
  pub normalized_title : Option String
  pub year : Option ℕ
  pub confidence : ℕ

-- A line of the diagnostics, by its label and its numbers.
pub data Diagnostic : Type 0 where
  duplicate_quality_replaced : String → ℕ → ℕ → Diagnostic
  duplicate_quality_ignored : String → ℕ → Diagnostic
  ambiguous_quality : ℕ → ℕ → Diagnostic
  rejected_quality : ℕ → ℕ → Diagnostic

pub record ParsedMovieGroup : Type 0 where
  pub poster_message_id : ℕ
  pub raw_poster_caption : String
  pub raw_title : String
  pub display_title : String
  pub normalized_title : String
  pub year : Option ℕ
  pub parser_style : ParserStyle
  pub status : GroupStatus
  pub poster_confidence : ℕ
  pub qualities : List ParsedQuality
  pub diagnostics : List Diagnostic

unfoldable pub is_photo : MediaKind → Bool
is_photo photo = true
is_photo _ = false

-- `media_kind in {VIDEO, DOCUMENT}`.
unfoldable pub is_media : MediaKind → Bool
is_media video = true
is_media document = true
is_media _ = false
