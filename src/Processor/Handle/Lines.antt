-- ===== src/Processor/Handle/Lines.antt =====
-- The loop of `CsvProcessor::handle` (src/impl/CsvProcessor.cpp) over the rows of a file.
use csv_to_kafka_using_cpp.Prelude.{
  ◌+◌, ◌%◌, ◌^◌, ◌≤◌, Bool, true, false, some, List, [], ◌∷◌, ◌++◌, ◌≡◌, ◌≢◌, refl, sym, ap, subst,
  ◌∙◌, arith, length, inl, inr,
}
use csv_to_kafka_using_cpp.Prelude.Text.{Text}
use csv_to_kafka_using_cpp.Prelude.Result.{Result, ok, throws, undefined, Result-cases}
use csv_to_kafka_using_cpp.Csv.Row.{CsvRow, parse_line}
use csv_to_kafka_using_cpp.Csv.Iterator.Lines.{Keeps, for_rows-file}
use csv_to_kafka_using_cpp.Csv.Iterator.ByLine.{lines_of, for_lines, body_of, first_row}
use csv_to_kafka_using_cpp.Transformers.{Transformer, operation, operations}
use csv_to_kafka_using_cpp.Transformers.Values.{operation-DiffersIn}
use csv_to_kafka_using_cpp.Processor.State.{
  Library, World, Outcome, value, raised, crashed, waiting,
}
use csv_to_kafka_using_cpp.Processor.Handle.{
  Report, rename, in_progress, Job, settle, row_step, Site, after_loop, fresh, load, handle,
}

operations_row :
    (ts : List Transformer) (row : CsvRow)
    → ((operations ts row).m_line ≡ row.m_line) × ((operations ts row).m_columns ≡ row.m_columns)
unfolding operations
operations_row [] row = (refl, refl)
operations_row (t ∷ ts) row =
    let (line, columns) = operations_row ts (operation t row) in
    let d = operation-DiffersIn t row in (line ∙ d.same_line, columns ∙ d.same_columns)

module _ {S : Type 0} where
  settle_row :
      (row row' : CsvRow) (job job' : Job S) (r : S × Outcome (Unit {0})) (more : Bool)
      → settle row job r ≡ ok (row', job', more)
      → row' ≡ row
  unfolding settle
  settle_row row row' job job' (w, value _) more h = cc
  settle_row row row' job job' (w, raised e) more h = cc
  settle_row row row' job job' (w, crashed) more h = cc
  settle_row row row' job job' (w, waiting) more h = cc

  -- A step that goes on has counted at most 13 exceptions, and no step counts more than 14.
  settle_count :
      (row row' : CsvRow) (job job' : Job S) (r : S × Outcome (Unit {0})) (more : Bool)
      → settle row job r ≡ ok (row', job', more)
      → job.exc_count ≤ 13
      → (job'.exc_count ≤ 14) × (more ≡ true → job'.exc_count ≤ 13)
  unfolding settle
  settle_count row row' job job' (w, value _) more h n = ground arith
  settle_count row row' job job' (w, raised e) more h n = ground arith
  settle_count row row' job job' (w, crashed) more h n = cc
  settle_count row row' job job' (w, waiting) more h n = ground arith

module _ (library : Library) (m_transformers : List Transformer) where
  pub row_step-Keeps : Keeps (row_step library m_transformers)
  unfolding row_step
  row_step-Keeps row row' job job' more h =
      let same = settle_row _ row' job job' _ more h in
      let (line, columns) = operations_row m_transformers row in rw same (line, columns)

  -- `handle` of a file does what the body of the loop does with the lines behind the header, each
  -- once and in their order, between the two renames. The iterator and the stream are gone from
  -- this description.
  pub handle-for_lines :
      (path content : Text) (site : Site library)
      → site.files path ≡ some content
      → handle library m_transformers path site
        ≡ after_loop library path
            (record site {
              files = (rename path (in_progress path) site.files).0;
              active_processors = (site.active_processors + 1) % 2 ^ 64;
            })
            (fresh library site.world site.reports)
            (some (
              for_lines
                (row_step library m_transformers)
                (lines_of (body_of content))
                (first_row content)
                (fresh library site.world site.reports)))
  unfolding handle load
  handle-for_lines path content site h =
      rw (h, handle)
        (ap (after_loop library path _ (fresh library site.world site.reports)) (
          for_rows-file (row_step library m_transformers) row_step-Keeps (length content + 2)
            content _ (omega arith)))

-- A property that each round keeps, and one that the last round leaves.
module _ {S : Type 0} (body : CsvRow → S → Result (CsvRow × S × Bool))
    (Going Stopped : S → Type 0) where
  for_lines-Stopped :
      ((row row' : CsvRow) (s s' : S) (more : Bool)
        → body row s ≡ ok (row', s', more)
        → Going s
        → Stopped s' × (more ≡ true → Going s'))
      → ((s : S) → Going s → Stopped s)
      → (lines : List Text) (row : CsvRow) (s s' : S) → for_lines body lines row s ≡ ok s'
      → Going s
      → Stopped s'
  unfolding for_lines
  for_lines-Stopped step last [] row s s' h g =
      let same : s ≡ s' = ground arith in subst Stopped same (last s g)
  for_lines-Stopped step last (line ∷ lines) row s s' h g =
      elim (Result-cases (parse_line (record row { m_line = line }))) [
        | inl (read, e) ↦ elim (Result-cases (body read s)) [
          | inl ((row', t, true), b) ↦
              let eq : for_lines body (line ∷ lines) row s ≡ for_lines body lines row' t =
                rw (e, for_lines) (rw b refl) in
              for_lines-Stopped step last lines row' t s' (sym eq ∙ h)
                ((step read row' s t true b g).1 refl)
          | inl ((row', t, false), b) ↦
              let eq : for_lines body (line ∷ lines) row s ≡ ok t = rw (e, for_lines) (rw b refl) in
              let same : t ≡ s' = cc in subst Stopped same (step read row' s t false b g).0
          | inr (inl (x, b)) ↦
              let eq : for_lines body (line ∷ lines) row s ≡ throws x =
                rw (e, for_lines) (rw b refl) in
              cc
          | inr (inr b) ↦
              let eq : for_lines body (line ∷ lines) row s ≡ undefined =
                rw (e, for_lines) (rw b refl) in
              cc
        ]
        | inr (inl (x, e)) ↦
            let eq : for_lines body (line ∷ lines) row s ≡ throws x = rw (e, for_lines) refl in cc
        | inr (inr e) ↦
            let eq : for_lines body (line ∷ lines) row s ≡ undefined = rw (e, for_lines) refl in cc
      ]

-- A loop that has been left is left whatever lines come later.
module _ {S : Type 0} (body : CsvRow → S → Result (CsvRow × S × Bool)) (Going : S → Type 0) where
  for_lines-append :
      ((row row' : CsvRow) (s s' : S) → body row s ≡ ok (row', s', true) → Going s → Going s')
      → (lines later : List Text) (row : CsvRow) (s s' : S) → ((t : S) → Going t → t ≢ s')
      → for_lines body lines row s ≡ ok s'
      → Going s
      → for_lines body (lines ++ later) row s ≡ ok s'
  unfolding for_lines
  for_lines-append step [] later row s s' final h g =
      let same : s ≡ s' = ground arith in elim (final s g same) [ ]
  for_lines-append step (line ∷ lines) later row s s' final h g =
      elim (Result-cases (parse_line (record row { m_line = line }))) [
        | inl (read, e) ↦ elim (Result-cases (body read s)) [
          | inl ((row', t, true), b) ↦
              let eq : for_lines body (line ∷ lines) row s ≡ for_lines body lines row' t =
                rw (e, for_lines) (rw b refl) in
              let eq' : for_lines body (line ∷ lines ++ later) row s
                  ≡ for_lines body (lines ++ later) row' t =
                rw (e, for_lines) (rw b refl) in
              eq'
              ∙ for_lines-append step lines later row' t s' final (sym eq ∙ h)
                  (step read row' s t b g)
          | inl ((row', t, false), b) ↦
              let eq : for_lines body (line ∷ lines) row s ≡ ok t = rw (e, for_lines) (rw b refl) in
              let eq' : for_lines body (line ∷ lines ++ later) row s ≡ ok t =
                rw (e, for_lines) (rw b refl) in
              eq' ∙ sym eq ∙ h
          | inr (inl (x, b)) ↦
              let eq : for_lines body (line ∷ lines) row s ≡ throws x =
                rw (e, for_lines) (rw b refl) in
              cc
          | inr (inr b) ↦
              let eq : for_lines body (line ∷ lines) row s ≡ undefined =
                rw (e, for_lines) (rw b refl) in
              cc
        ]
        | inr (inl (x, e)) ↦
            let eq : for_lines body (line ∷ lines) row s ≡ throws x = rw (e, for_lines) refl in cc
        | inr (inr e) ↦
            let eq : for_lines body (line ∷ lines) row s ≡ undefined = rw (e, for_lines) refl in cc
      ]

module _ (library : Library) (m_transformers : List Transformer) where
  -- A file counts 14 exceptions at most: the loop is left at the 14th.
  pub exc_count_bound :
      (lines : List Text) (row : CsvRow) (world : World library) (reports : List Report)
      (job : Job (World library))
      → for_lines (row_step library m_transformers) lines row (fresh library world reports) ≡ ok job
      → job.exc_count ≤ 14
  unfolding row_step
  exc_count_bound lines row world reports job h =
      for_lines-Stopped (row_step library m_transformers) (λ j. j.exc_count ≤ 13)
        (λ j. j.exc_count ≤ 14) (λ row row' s s' more e g. settle_count _ row' s s' _ more e g)
        (λ s g. omega arith) lines row (fresh library world reports) job h (omega arith)

  -- Once a file has counted 14 exceptions its other lines are not read: what they are makes no
  -- difference to the job.
  pub exc_count_break :
      (lines later : List Text) (row : CsvRow) (world : World library) (reports : List Report)
      (job : Job (World library))
      → for_lines (row_step library m_transformers) lines row (fresh library world reports) ≡ ok job
      → job.exc_count ≡ 14
      → for_lines
          (row_step library m_transformers)
          (lines ++ later)
          row
          (fresh library world reports)
        ≡ ok job
  unfolding row_step
  exc_count_break lines later row world reports job h n =
      for_lines-append (row_step library m_transformers) (λ j. j.exc_count ≤ 13)
        (λ row row' s s' e g. (settle_count _ row' s s' _ true e g).1 refl) lines later row
        (fresh library world reports) job
        (λ t g same. omega (arith, ap (λ (j : Job (World library)). j.exc_count) same)) h
        (omega arith)
