-- ===== src/ImportJobs/Replay.antt =====
-- A batch that is recorded again, after a crash of the importer between its commit and its next batch.
use mathlib.Core.Path.{subst}
use cine_gate.Base.{
  ℕ, ◌+◌, ◌≡◌, sym, refl, inl, inr, leb, true, some, List, [], ◌∷◌, arith, Bool-cases, ok, All,
  lookup, put, lookup-put, lookup-key,
}
use cine_gate.ImportJobs.{
  ImportJob, ImportMessageMap, ImportTables, job_key, select_job, require_job,
}
use cine_gate.ImportJobs.Batches.{
  conflicts, mapping_of, insert_mappings, insert_pairs, record_transfer_batch,
}

leb_refl : (n : ℕ) → leb n n ≡ true
leb_refl n = ground arith

-- Rows that stand in the way of a mapping stay in the way when others are added.
insert_mappings-keeps_conflicts :
    (id : ℕ) (pairs : List (ℕ × ℕ)) (m : ImportMessageMap) (rows : List ImportMessageMap)
    → conflicts m rows ≡ true
    → conflicts m (insert_mappings id pairs rows).1 ≡ true
unfolding insert_mappings conflicts
insert_mappings-keeps_conflicts id [] m rows h = h
insert_mappings-keeps_conflicts id (pair ∷ pairs) m rows h =
    elim (Bool-cases (conflicts (mapping_of id pair) rows)) [
      | inl e ↦ rw (e, insert_mappings) (insert_mappings-keeps_conflicts id pairs m rows h)
      | inr e ↦
          rw (e, insert_mappings)
            (insert_mappings-keeps_conflicts id pairs m (mapping_of id pair ∷ rows)
              (ground (arith, h)))
    ]

self-conflicts :
    (m : ImportMessageMap) (rows : List ImportMessageMap) → conflicts m (m ∷ rows) ≡ true
unfolding conflicts
self-conflicts m rows = ground arith

abbrev Blocked : ℕ → List ImportMessageMap → List (ℕ × ℕ) → Type 0
Blocked id rows = All (λ pair. conflicts (mapping_of id pair) rows ≡ true)

-- The table after the first pair, which is inserted unless a row stands in its way.
insert_mappings_step :
    (id : ℕ) (pair : ℕ × ℕ) (pairs : List (ℕ × ℕ)) (rows : List ImportMessageMap)
    → (next : List ImportMessageMap) × (conflicts (mapping_of id pair) next ≡ true)
      × ((insert_mappings id (pair ∷ pairs) rows).1 ≡ (insert_mappings id pairs next).1)
unfolding insert_mappings
insert_mappings_step id pair pairs rows = elim (Bool-cases (conflicts (mapping_of id pair) rows)) [
  | inl e ↦ (rows, e, rw (e, insert_mappings) refl)
  | inr e ↦ (
    mapping_of id pair ∷ rows,
    self-conflicts (mapping_of id pair) rows,
    rw (e, insert_mappings) refl,
  )
]

insert_mappings-Blocked :
    (id : ℕ) (pairs : List (ℕ × ℕ)) (rows : List ImportMessageMap)
    → Blocked id (insert_mappings id pairs rows).1 pairs
insert_mappings-Blocked id [] rows = tt
insert_mappings-Blocked id (pair ∷ pairs) rows =
    let (next, blocked, step) = insert_mappings_step id pair pairs rows in
    subst (λ t. Blocked id t (pair ∷ pairs)) (sym step)
      (
        insert_mappings-keeps_conflicts id pairs (mapping_of id pair) next blocked,
        insert_mappings-Blocked id pairs next,
      )

Blocked-insert_mappings :
    (id : ℕ) (pairs : List (ℕ × ℕ)) (rows : List ImportMessageMap)
    → Blocked id rows pairs
    → insert_mappings id pairs rows ≡ (0, rows)
unfolding insert_mappings
Blocked-insert_mappings id [] rows h = refl
Blocked-insert_mappings id (pair ∷ pairs) rows h =
    rw (h.0, insert_mappings) (Blocked-insert_mappings id pairs rows h.1)

-- Inserting the same pairs again inserts nothing.
pub insert_mappings_again :
    (id : ℕ) (pairs : List (ℕ × ℕ)) (rows : List ImportMessageMap)
    → let after = (insert_mappings id pairs rows).1 in insert_mappings id pairs after ≡ (0, after)
insert_mappings_again id pairs rows =
    Blocked-insert_mappings id pairs (insert_mappings id pairs rows).1
      (insert_mappings-Blocked id pairs rows)

module _ (id through processed skipped : ℕ) (pairs : List (ℕ × ℕ)) (s : ImportTables) where
  abbrev batch_row : ImportJob → ℕ → ImportJob
  batch_row j inserted = record j {
    last_copied_source_message_id = through;
    processed_messages = j.processed_messages + processed;
    skipped_messages = j.skipped_messages + skipped;
    copied_messages = j.copied_messages + inserted;
  }

  recorded :
      (j : ImportJob)
      → select_job id s ≡ some j
      → (inserted : ℕ)
      → lookup job_key id (put job_key (batch_row j inserted) s.jobs) ≡ some (batch_row j inserted)
  recorded j e inserted = ground (
    arith,
    e,
    lookup-key job_key id s.jobs j e,
    lookup-put job_key id (batch_row j inserted) j s.jobs,
  )

  -- A batch of a job that is there, recorded twice in a row, is counted once: the second time
  -- inserts nothing, writes nothing and answers 0.
  pub record_transfer_batch_again :
      (j : ImportJob)
      → select_job id s ≡ some j
      → let after = (record_transfer_batch id through processed skipped pairs s).1 in
        record_transfer_batch id through processed skipped pairs after ≡ (ok 0, after)
  unfolding record_transfer_batch insert_pairs require_job
  record_transfer_batch_again j e =
      elim (Bool-cases (leb through j.last_copied_source_message_id)) [
        | inl f ↦ rw (e, f, insert_mappings_again id pairs s.mappings, e, f) refl
        | inr f ↦
            rw
              (
                e,
                f,
                insert_mappings_again id pairs s.mappings,
                recorded j e (insert_mappings id pairs s.mappings).0,
                leb_refl through,
              )
              refl
      ]
