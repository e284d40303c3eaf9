-- ===== src/Processor/Several.antt =====
-- Several processors on one directory: the calls of `CsvProcessor::handle` (src/impl/CsvProcessor.cpp)
-- that run at the same time, with what they do to the directory.
pub mod Apart
pub mod Polled
pub mod Restart
use csv_to_kafka_using_cpp.Prelude.{
  ℕ, ◌<◌, Bool, true, false, Option, none, some, ◌≡◌, ◌==◌, if◌then◌else◌,
}
use csv_to_kafka_using_cpp.Prelude.Text.{Text}
use csv_to_kafka_using_cpp.Processor.Handle.{Directory, rename, in_progress, finished}

-- How far a call has come: before its first `rename`, between it and the opening of the file, in the
-- loop over the rows of what it has opened, or behind the second `rename`. A call that finds no
-- file skips the loop. An open file is read from where it is, also when its name changes.
pub data Phase : Type 0 where
  before moved : Phase
  reading : (opened : Option Text) → Phase
  over skipped : Phase

-- The calls have numbers below `n`, and `path` gives the path that each was called with.
pub record Several : Type 0 where
  pub files : Directory
  pub phase : ℕ → Phase

unfoldable pub update : (ℕ → Phase) → ℕ → Phase → ℕ → Phase
update phase i p j = if i == j then p else phase j

module _ (n : ℕ) (path : ℕ → Text) where
  -- One `rename` or opening of one call; each is atomic. The rows, which are read between the last
  -- two, do not change the directory.
  pub data Step (s : Several) : Several → Type 0 where
    begins :
        (i : ℕ) (content : Text)
        → i < n
        → s.phase i ≡ before
        → s.files (path i) ≡ some content
        → Step s (record {
          files = (rename (path i) (in_progress (path i)) s.files).0;
          phase = update s.phase i moved;
        })
    skips :
        (i : ℕ)
        → i < n
        → s.phase i ≡ before
        → s.files (path i) ≡ none
        → Step s (record s { phase = update s.phase i skipped })
    opens :
        (i : ℕ)
        → i < n
        → s.phase i ≡ moved
        → Step s (record s { phase = update s.phase i (reading (s.files (in_progress (path i)))) })
    finishes :
        (i : ℕ) (opened : Option Text)
        → i < n
        → s.phase i ≡ reading opened
        → Step s (record {
          files = (rename (in_progress (path i)) (finished (path i)) s.files).0;
          phase = update s.phase i over;
        })

  pub data Reaches (s : Several) : Several → Type 0 where
    start : Reaches s s
    step : {t u : Several} → Reaches s t → Step t u → Reaches s u

abbrev pub at_start : Directory → Several
at_start files = record { files = files; phase = λ i. before }
