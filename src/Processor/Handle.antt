-- ===== src/Processor/Handle.antt =====
-- `CsvProcessor::handle` (src/impl/CsvProcessor.cpp): a file from its name to `_done`.
pub mod Lines
pub mod Files
pub mod Success
pub mod Rows
pub mod Messages
use csv_to_kafka_using_cpp.Prelude.{
  ℕ, ◌+◌, ◌-◌, ◌%◌, ◌^◌, Bool, true, false, Option, none, some, List, [], ◌∷◌, ◌++◌, ◌≡◌, refl, ltb,
  ◌==◌, if◌then◌else◌, length,
}
use csv_to_kafka_using_cpp.Prelude.Text.{Text, codes, text_eq}
use csv_to_kafka_using_cpp.Prelude.Result.{Exception, Result, ok, throws, undefined}
use csv_to_kafka_using_cpp.Csv.Row.{CsvRow}
use csv_to_kafka_using_cpp.Csv.Stream.{Stream, opened}
use csv_to_kafka_using_cpp.Csv.Iterator.{begin, for_rows}
use csv_to_kafka_using_cpp.Transformers.{Transformer, operations}
use csv_to_kafka_using_cpp.Util.{what}
use csv_to_kafka_using_cpp.Processor.State.{
  Library, World, Outcome, value, raised, crashed, waiting,
}
use csv_to_kafka_using_cpp.Processor.Publish.{publish}

-- The files by their paths, with what they hold.
abbrev pub Directory : Type 0
Directory = Text → Option Text

-- `rename`: whether it succeeded, which is where there is a file. A file with the new name is
-- replaced.
unfoldable pub rename : Text → Text → Directory → Directory × Bool
rename old new files = elim (files old) [
  | none ↦ (files, false)
  | some content ↦ (
    λ path.
        if text_eq path new then some content else if text_eq path old then none else files path,
    true,
  )
]

-- What `handle` hands to the log, without the wording.
pub data Report : Type 0 where
  processing : Report
  error_in_row : CsvRow → Report
  error_what : Result Text → Report
  too_many_exceptions : Report
  unable_to_load : Report
  done : ℕ → Report

-- `_inprogress` and `_done` behind the path.
abbrev pub in_progress : Text → Text
in_progress path = path ++ codes "_inprogress"

abbrev pub finished : Text → Text
finished path = path ++ codes "_done"

-- The state that the loop over the rows changes. `blocked` says that a call of `publish` still
-- waits for the producer.
pub record Job (S : Type 0) : Type 0 where
  pub world : S
  pub exc_count : ℕ
  pub reports : List Report
  pub blocked : Bool

-- The inner `catch (...)`, with the test of `++exc_count`: the loop goes on, or breaks.
abbrev pub failed_reports : ℕ → CsvRow → Exception → List Report
failed_reports exc_count row e =
    (if exc_count == 0 then error_in_row row ∷ [] else [])
    ++ error_what (what (some e))
      ∷ (if ltb 13 (exc_count + 1) then too_many_exceptions ∷ [] else [])

module _ {S : Type 0} where
  unfoldable pub settle : CsvRow → Job S → S × Outcome (Unit {0}) → Result (CsvRow × Job S × Bool)
  settle row job (w, value _) = ok (row, record job { world = w }, true)
  settle row job (w, raised e) = ok (
    row,
    record job {
      world = w;
      exc_count = job.exc_count + 1;
      reports = job.reports ++ failed_reports job.exc_count row e;
    },
    if ltb 13 (job.exc_count + 1) then false else true,
  )
  settle row job (w, crashed) = undefined
  settle row job (w, waiting) = ok (row, record job { world = w; blocked = true }, false)

module _ (library : Library) where
  -- The body of the loop: the transformers, then `publish`.
  unfoldable pub row_step :
      List Transformer → CsvRow → Job (World library) → Result (CsvRow × Job (World library) × Bool)
  unfolding settle
  row_step m_transformers row job =
      let changed = operations m_transformers row in
      settle changed job (publish library changed job.world)

  -- What a processor shares with the others and with the log.
  pub record Site : Type 0 where
    pub files : Directory
    pub active_processors : ℕ
    pub world : World library
    pub reports : List Report

  -- Behind the loop: `rename`, the last report, the counter.
  unfoldable pub finish : Text → Site → Job (World library) → Site × Outcome (Unit {0})
  unfolding rename
  finish path site job =
      if job.blocked then (record site { world = job.world; reports = job.reports }, waiting) else (
        record {
          files = (rename (in_progress path) (finished path) site.files).0;
          active_processors = (site.active_processors + (2 ^ 64 - 1)) % 2 ^ 64;
          world = job.world;
          reports = job.reports ++ done job.world.old_count ∷ [];
        },
        value tt,
      )

  -- How the loop ended. It runs out of rounds for no file, and reading throws nothing, so the
  -- outer `catch (...)` is never entered.
  unfoldable pub after_loop :
      Text
      → Site
      → Job (World library)
      → Option (Result (Job (World library)))
      → Site × Outcome (Unit {0})
  unfolding finish
  after_loop path site start none = (site, waiting)
  after_loop path site start (some undefined) = (site, crashed)
  after_loop path site start (some (throws e)) =
      finish path site (record start { reports = start.reports ++ unable_to_load ∷ [] })
  after_loop path site start (some (ok job)) = finish path site job

  -- A job as the loop begins with it, `old_count` and `exc_count` at 0.
  abbrev pub fresh : World library → List Report → Job (World library)
  fresh world reports = record {
    world = record world { old_count = 0 };
    exc_count = 0;
    reports = reports ++ processing ∷ [];
    blocked = false;
  }

  -- The renamed file, opened and read.
  unfoldable pub load : List Transformer → Text → Site → Text → Site × Outcome (Unit {0})
  unfolding after_loop row_step
  load m_transformers path site content =
      let start = fresh site.world site.reports in
      after_loop path site start (
        for_rows (row_step m_transformers) (length content + 2) (begin (opened content) true) start)

  -- The counter, and the file if `rename` finds it.
  unfoldable pub handle : List Transformer → Text → Site → Site × Outcome (Unit {0})
  unfolding rename load
  handle m_transformers path site =
      let counted = (site.active_processors + 1) % 2 ^ 64 in
      elim (site.files path) [
        | none ↦ (
          record site {
            active_processors = (counted + (2 ^ 64 - 1)) % 2 ^ 64;
            reports = site.reports ++ processing ∷ done 0 ∷ [];
          },
          value tt,
        )
        | some content ↦
            load m_transformers path
              (record site {
                files = (rename path (in_progress path) site.files).0;
                active_processors = counted;
              })
              content
      ]
