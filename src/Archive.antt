-- ===== src/Archive.antt =====
-- services/text.py, domain/archive.py and services/archive_parser.py, what the messages of the
-- archive channel say, and services/archive_indexer.py, the movies that are made of them.
pub mod Text
pub mod Messages
pub mod Posters
pub mod Parser
pub mod Store
pub mod Indexer
pub mod Service
pub mod Edits
pub mod Ingest
pub mod Catalogs
pub mod Safety
pub mod EditSafety
pub mod Revisions
pub mod Runs
pub mod Replays
pub mod Availability
mod Examples
