-- ===== src/Lib.antt =====
-- CineGate: a Telegram bot that answers searches for movies, asks for an advertisement to be watched,
-- copies the movie from an archive channel to the user and deletes the copy later.
--
-- Parts and files, with the paths of the code under src/cinegate:
--   RateLimit        services/rate_limit.py. `check` is the method on the record of the limiter;
--                    `locate`, `trim` and `admit` are its steps, `evict_if_needed` the eviction.
--   Models           db/models.py and the readers of repositories/settings.py: one record per row, and
--                    `Database`, the tables that the reward and delivery services share.
--   Rewards          services/reward_sessions.py, services/reward_availability.py, domain/rewards.py:
--                    one function per method, with the method's name. Rewards/Rows has the changes
--                    of one row.
--   Delivery         services/delivery.py, domain/delivery.py: `prepare`, `reset_failed_send`,
--                    `finalize_sent` and `deliver`. The reward service earns what it delivers, and it
--                    writes the rows of both tables.
--   Deletion         services/delivery.py from `recover_stale_sends` on, and `_delete_one` of
--                    workers/deletion.py, on the deliveries that the sending has left.
--   SearchSessions   services/search_sessions.py: the search of a user that is on the screen.
--   ImportJobs       repositories/import_jobs.py: the state and the checkpoints of the import of an
--                    older channel into the archive. ImportJobs/Batches has the
--                    mappings and the batches, ImportJobs/Queries the creation of a job.
--   Archive          Text, Posters and Parser: services/text.py and services/archive_parser.py, which
--                    group the messages of the archive channel. Store, Indexer, Service, Edits and
--                    Ingest: services/archive_indexer.py, db/archive_models.py and
--                    domain/indexing.py, which keep the movies and qualities that the rewards and
--                    the deliveries read; the entry points are `ingest` and `reconcile_edit`.
--   Admin            admin/registry.py (Values, Registry) and the settings of admin/service.py, with
--                    the writers of repositories/settings.py: what the owner edits and the other
--                    services read. `IsKept` compares the settings with the audit log.
--   Templates        presentation/templates.py: the rendering of a text with variables, and the check
--                    of a text that the owner sends.
--   Base             lists, tables, results and transactions.
--
-- How the code is read. A method that opens a session is one transaction on the tables at the
-- clock's value `now`, which is an argument: it gives an answer or an error and the tables after it,
-- and an error leaves the tables as they were (`transaction`). The row locks and advisory locks of
-- PostgreSQL make the transactions on a user or a session follow one another, so a run is a sequence
-- of methods. A table is a list of rows; where the order of a query leaves a choice, the first row of
-- the list is taken. Identifiers are numbers, a new key is an argument that is not in the table.
-- Times are microseconds in the services and milliseconds in the limiter, whose floats are not
-- rounded. No recursion needs fuel: all of it is on lists.
--
-- Arguments that stand for other code: the answers of the Bot API, the rendering of a caption
-- (`Render`), and the regular expressions, text functions and floats of the standard library
-- (`TextLibrary`, `SettingLibrary` with `FloatLaws`, `VariableLibrary` with `VariableLaws`). Not
-- modelled: the ranking of search results, the owner's edits of templates and the loops of the
-- import, which stand beside the parts above and share only the tables with them; routers, web
-- endpoints and the command line, which are input and output only.
pub mod Base
pub mod Models
pub mod RateLimit
pub mod Rewards
pub mod Delivery
pub mod Deletion
pub mod SearchSessions
pub mod ImportJobs
pub mod Archive
pub mod Admin
pub mod Templates
