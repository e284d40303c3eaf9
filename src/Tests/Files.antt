-- ===== src/Tests/Files.antt =====
-- `CsvProcessor::handle` (src/impl/CsvProcessor.cpp) with a small directory.
use csv_to_kafka_using_cpp.Prelude.{
  ℕ, ◌≤◌, zero, suc, ◌+◌, true, false, none, some, List, [], ◌∷◌, ◌++◌, ◌≡◌, ◌⊎◌, refl, ap, ltb,
  arith, length, if◌then◌else◌,
}
use csv_to_kafka_using_cpp.Prelude.Text.{Text, codes, text_eq}
use csv_to_kafka_using_cpp.Prelude.Result.{ok, Exception, std_exception}
use csv_to_kafka_using_cpp.Csv.Row.{CsvRow, empty_row}
use csv_to_kafka_using_cpp.Csv.Row.Fields.{split, action, fields_of}
use csv_to_kafka_using_cpp.Csv.Row.Columns.{parse_line_total}
use csv_to_kafka_using_cpp.Csv.Iterator.ByLine.{for_lines}
use csv_to_kafka_using_cpp.Transformers.{Transformer, decorator_unuuid, null, operations}
use csv_to_kafka_using_cpp.Processor.State.{World, value, crashed, waiting}
use csv_to_kafka_using_cpp.Prelude.Dict.{find}
use csv_to_kafka_using_cpp.Prelude.Int.{pos}
use csv_to_kafka_using_cpp.Util.{create_datum_for_type}
use csv_to_kafka_using_cpp.Config.Schemas.{type_name}
use csv_to_kafka_using_cpp.Processor.Publish.{
  too_old, fill_record, publish_topic, publish_topics, publish,
}
use csv_to_kafka_using_cpp.Processor.Handle.{
  Directory, settle, row_step, Site, Job, fresh, handle, Report, processing, failed_reports,
}
use csv_to_kafka_using_cpp.Processor.Handle.Lines.{exc_count_bound, exc_count_break}
use csv_to_kafka_using_cpp.Processor.Handle.Files.{IsMoved, handle_ends}
use csv_to_kafka_using_cpp.Tests.Instances.{library}
use csv_to_kafka_using_cpp.Tests.Publishing.{world, config}

abbrev path : Text
path = codes "in/a.csv"

abbrev content : Text
content = codes "id,name\n7,x\n"

abbrev files : Directory
files p = if text_eq p path then some content else none

abbrev pub site : Site library
site = record { files = files; active_processors = 3; world = world; reports = [] }

abbrev steps : List Transformer
steps = decorator_unuuid (codes "name") null ∷ []

there : files path ≡ some content
unfolding text_eq
there = refl

handle_ends_example :
    (((handle library steps path site).1 ≡ value tt)
      × IsMoved path content site.files (handle library steps path site).0.files
      × ((handle library steps path site).0.active_processors ≡ site.active_processors))
    ⊎ (((handle library steps path site).1 ≡ crashed)
        ⊎ ((handle library steps path site).1 ≡ waiting))
handle_ends_example = handle_ends library steps path content site there (omega arith)

-- A topic whose column has a type that is not known: no row can be sent.
abbrev failing : World library
failing = record world {
  m_schemas =
      (
        codes "a",
        record (config (codes "a") (pos 1)) {
          column_type_transforms = (codes "name", codes "text") ∷ [];
        },
      )
      ∷ [];
}

abbrev copies : ℕ → Text → List Text
copies zero t = []
copies (suc n) t = t ∷ copies n t

abbrev names : CsvRow
names = record empty_row { m_columns = codes "name" ∷ [] }

abbrev job : ℕ → List Report → Job (World library)
job n reports = record {
  world = record failing { old_count = 0 };
  exc_count = n;
  reports = reports;
  blocked = false;
}

abbrev refusal : Exception
refusal = std_exception (codes "Unknown datum type")

failing_step :
    (read : CsvRow) (n : ℕ) (reports : List Report)
    → (more : List Report) × (row_step library [] read (job n reports)
        ≡ ok (read, job (n + 1) more, if ltb 13 (n + 1) then false else true))
unfolding row_step settle publish publish_topics publish_topic fill_record too_old operations
    create_datum_for_type type_name find text_eq
failing_step read n reports = (reports ++ failed_reports n read refusal, refl)

one_field : fields_of (codes "x") ≡ codes "x" ∷ []
unfolding split action
one_field = refl

-- Of the rows that fail, the one that makes 14 is the last.
failing_lines :
    (k n : ℕ) (row : CsvRow) (reports : List Report)
    → n + suc k ≡ 14
    → length row.m_columns ≡ 1
    → (job' : Job (World library)) × (for_lines
          (row_step library [])
          (copies (suc k) (codes "x"))
          row
          (job n reports)
        ≡ ok job')
      × (job'.exc_count ≡ 14)
unfolding for_lines
failing_lines zero n row reports e c =
    let here : CsvRow = record row { m_line = codes "x" } in
    let (read, parsed, _, _, _) =
      (parse_line_total here).0 (omega (arith, c, ap (λ (f : List Text). length f) one_field)) in
    let last : ltb 13 (n + 1) ≡ true = ground arith in
    let (reports', step) = failing_step read n reports in
    (job (n + 1) reports', rw (parsed, for_lines) (rw (step, last) refl), omega (arith, e))
failing_lines (suc k) n row reports e c =
    let here : CsvRow = record row { m_line = codes "x" } in
    let (read, parsed, _, columns, _) =
      (parse_line_total here).0 (omega (arith, c, ap (λ (f : List Text). length f) one_field)) in
    let more : ltb 13 (n + 1) ≡ false = ground arith in
    let (reports', step) = failing_step read n reports in
    let (job', rest, count) =
      failing_lines k (n + 1) read reports' (omega (arith, e)) (rw columns c) in
    (job', rw (parsed, for_lines) (rw (step, more) rest), count)

exc_count_bound_example : (failing_lines 13 0 names (processing ∷ []) refl refl).0.exc_count ≤ 14
exc_count_bound_example =
    exc_count_bound library [] (copies 14 (codes "x")) names failing []
      (failing_lines 13 0 names (processing ∷ []) refl refl).0
      (failing_lines 13 0 names (processing ∷ []) refl refl).1

exc_count_break_example :
    for_lines
      (row_step library [])
      (copies 14 (codes "x") ++ (codes "y" ∷ []))
      names
      (fresh library failing [])
    ≡ ok (failing_lines 13 0 names (processing ∷ []) refl refl).0
exc_count_break_example =
    exc_count_break library [] (copies 14 (codes "x")) (codes "y" ∷ []) names failing []
      (failing_lines 13 0 names (processing ∷ []) refl refl).0
      (failing_lines 13 0 names (processing ∷ []) refl refl).1
      (failing_lines 13 0 names (processing ∷ []) refl refl).2
