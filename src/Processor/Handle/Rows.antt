-- ===== src/Processor/Handle/Rows.antt =====
-- The messages of the lines of a file, some of which fail: the loop of `CsvProcessor::handle` over
-- `publish` (src/impl/CsvProcessor.cpp).
use csv_to_kafka_using_cpp.Prelude.{
  ℕ, ◌+◌, ◌≤◌, ◌<◌, Bool, true, false, Option, none, some, List, [], ◌∷◌, ◌++◌, ◌≡◌, refl, sym, ap,
  subst, ◌∙◌, arith, append-nil, append_assoc, ltb, if◌then◌else◌,
}
use csv_to_kafka_using_cpp.Prelude.Text.{Text}
use csv_to_kafka_using_cpp.Prelude.Dict.{Dict}
use csv_to_kafka_using_cpp.Prelude.Result.{Exception, ok}
use csv_to_kafka_using_cpp.Csv.Row.{CsvRow, parse_line}
use csv_to_kafka_using_cpp.Csv.Iterator.ByLine.{for_lines}
use csv_to_kafka_using_cpp.Transformers.{Transformer, operations}
use csv_to_kafka_using_cpp.Config.Schemas.{SchemaConfig}
use csv_to_kafka_using_cpp.Processor.State.{ErrorCode, Message, Library, World, value, raised}
use csv_to_kafka_using_cpp.Processor.Publish.{publish}
use csv_to_kafka_using_cpp.Processor.Publish.Filling.{Stop, row_old, throwing}
use csv_to_kafka_using_cpp.Processor.Publish.Messages.{
  Sends, outcome_of, AllTaken, no_more, taken, publish_messages,
}
use csv_to_kafka_using_cpp.Processor.Handle.{Job, settle, row_step, failed_reports}

module _ (library : Library) (m_transformers : List Transformer) where
  open library use {floats, avro, serdes}

  -- How many exceptions the end of a row adds.
  abbrev pub fails_of : Option Stop → ℕ
  fails_of (some (throwing e)) = 1
  fails_of _ = 0

  -- What the lines send, and how many of them fail, between two readings of the clock. Each row sends
  -- to some topics, to all if nothing stops it. The row is the one that the iterator goes on with.
  pub data LinesSend (schemas : Dict (SchemaConfig avro))
      : List Text → CsvRow → ℕ → List Message → ℕ → ℕ → Type 0 where
    no_lines : {row : CsvRow} {k : ℕ} → LinesSend schemas [] row k [] 0 k
    line_sends :
        {line : Text} {lines : List Text} {row : CsvRow} {k l m : ℕ} {ms later : List Message}
        {fails : ℕ} {end : Option Stop} (read : CsvRow)
        → parse_line (record row { m_line = line }) ≡ ok read
        → Sends library (operations m_transformers read) [] schemas k ms end l
        → LinesSend schemas lines (operations m_transformers read) l later fails m
        → LinesSend schemas (line ∷ lines) row k (ms ++ later) (fails_of end + fails) m

  -- The answers for some messages, and those for the rest.
  AllTaken-split :
      (ms : List Message) {later : List Message} {rss left : List (List ErrorCode)}
      → AllTaken library (ms ++ later) rss left
      → (middle : List (List ErrorCode)) × AllTaken library ms rss middle
        × AllTaken library later middle left
  AllTaken-split [] t = (_, no_more, t)
  AllTaken-split (m ∷ ms) (taken n rs t) =
      let (middle, front, back) = AllTaken-split ms t in (middle, taken n rs front, back)

  -- A job that goes on to another.
  pub record Sent (job : Job (World library)) (ms : List Message) (left : List (List ErrorCode))
      (job' : Job (World library)) : Type 0 where
    pub produced : job'.world.produced ≡ job.world.produced ++ ms
    pub answers_left : job'.world.responses ≡ left
    pub going_on : job'.blocked ≡ job.blocked

  row_step_sends :
      (read : CsvRow) (job : Job (World library)) (v : World library)
      → publish library (operations m_transformers read) job.world ≡ (v, value tt)
      → row_step library m_transformers read job
        ≡ ok (operations m_transformers read, record job { world = v }, true)
  unfolding row_step settle
  row_step_sends read job v p = rw p refl

  abbrev failed : CsvRow → Job (World library) → World library → Exception → Job (World library)
  failed read job v e = record {
    world = v;
    exc_count = job.exc_count + 1;
    reports = job.reports ++ failed_reports job.exc_count (operations m_transformers read) e;
    blocked = job.blocked;
  }

  row_step_fails :
      (read : CsvRow) (job : Job (World library)) (v : World library) (e : Exception)
      → publish library (operations m_transformers read) job.world ≡ (v, raised e)
      → job.exc_count < 13
      → row_step library m_transformers read job
        ≡ ok (operations m_transformers read, failed read job v e, true)
  unfolding row_step settle
  row_step_fails read job v e p l =
      let more : ltb 13 (job.exc_count + 1) ≡ false = ground arith in
      ap (settle (operations m_transformers read) job) p
      ∙ ap
          (λ (b : Bool).
            ok (operations m_transformers read, failed read job v e, if b then false else true))
          more

  -- The loop over some lines, which sends messages and leaves answers.
  abbrev pub Loops :
      List Text → CsvRow → Job (World library) → List Message → List (List ErrorCode) → Type 0
  Loops lines row job ms left =
      (job' : Job (World library)) × (for_lines (row_step library m_transformers) lines row job
        ≡ ok job')
      × Sent job ms left job'

  -- A line whose row lets the loop go on with a job, and the lines behind it.
  line-Loops :
      (line : Text) (lines : List Text) (row : CsvRow) {left : List (List ErrorCode)}
      (read : CsvRow) (job next : Job (World library)) (ms later : List Message)
      → parse_line (record row { m_line = line }) ≡ ok read
      → row_step library m_transformers read job ≡ ok (operations m_transformers read, next, true)
      → next.world.produced ≡ job.world.produced ++ ms
      → next.blocked ≡ job.blocked
      → Loops lines (operations m_transformers read) next later left
      → Loops (line ∷ lines) row job (ms ++ later) left
  unfolding for_lines
  line-Loops line lines row read job next ms later parsed s q b (job', done, sent) = (
    job',
    rw (parsed, for_lines) (rw s done),
    record {
      produced =
          sent.produced
          ∙ ap (λ (x : List Message). x ++ later) q
          ∙ append_assoc job.world.produced ms later;
      answers_left = sent.answers_left;
      going_on = sent.going_on ∙ b;
    },
  )

  -- However the row ends, with room for its exception.
  row-Loops :
      (line : Text) (lines : List Text) (row : CsvRow) {left : List (List ErrorCode)}
      (read : CsvRow) (job : Job (World library)) (v : World library) (ms later : List Message)
      (end : Option Stop)
      → parse_line (record row { m_line = line }) ≡ ok read
      → publish library (operations m_transformers read) job.world ≡ (v, outcome_of library end)
      → v.produced ≡ job.world.produced ++ ms
      → job.exc_count + fails_of end ≤ 13
      → ((next : Job (World library))
          → next.world ≡ v
          → next.exc_count ≡ job.exc_count + fails_of end
          → Loops lines (operations m_transformers read) next later left)
      → Loops (line ∷ lines) row job (ms ++ later) left
  row-Loops line lines row read job v ms later none parsed p q few rest =
      line-Loops line lines row read job (record job { world = v }) ms later parsed
        (row_step_sends read job v p) q refl (rest _ refl (omega arith))
  row-Loops line lines row read job v ms later (some row_old) parsed p q few rest =
      line-Loops line lines row read job (record job { world = v }) ms later parsed
        (row_step_sends read job v p) q refl (rest _ refl (omega arith))
  row-Loops line lines row read job v ms later (some (throwing e)) parsed p q few rest =
      line-Loops line lines row read job (failed read job v e) ms later parsed
        (row_step_fails read job v e p (omega (arith, few))) q refl (rest _ refl refl)

  pub for_lines-LinesSend :
      {schemas : Dict (SchemaConfig avro)} {lines : List Text} {row : CsvRow} {k l : ℕ}
      {ms : List Message} {fails : ℕ} {left : List (List ErrorCode)} (job : Job (World library))
      → LinesSend schemas lines row k ms fails l
      → job.world.m_schemas ≡ schemas
      → job.world.readings ≡ k
      → AllTaken library ms job.world.responses left
      → job.exc_count + fails ≤ 13
      → Loops lines row job ms left
  unfolding for_lines
  for_lines-LinesSend job no_lines c r no_more few = (
    job,
    refl,
    record { produced = sym (append-nil job.world.produced); answers_left = refl; going_on = refl },
  )
  for_lines-LinesSend {schemas} {left} job
        (line_sends {row} {l} {ms} {later = later_ms} {fails} {end} read parsed s later) c r t few =
      let room : job.exc_count + fails_of end ≤ 13 = omega (arith, few) in
      let (middle, front, back) = AllTaken-split ms t in
      let here =
        subst
          (λ (x : Dict (SchemaConfig avro)).
            Sends library (operations m_transformers read) [] x job.world.readings ms end l)
          (sym c)
          (subst (λ (x : ℕ). Sends library (operations m_transformers read) [] schemas x ms end l)
            (sym r) s) in
      let (v, p, q) =
        publish_messages library (operations m_transformers read) job.world here front in
      row-Loops _ _ row read job v ms later_ms end parsed p q.taken_messages room (λ next e n.
        for_lines-LinesSend next later
          (ap (λ (w : World library). w.m_schemas) e ∙ q.same_schemas ∙ c)
          (ap (λ (w : World library). w.readings) e ∙ q.clock_read)
          (subst (λ (x : List (List ErrorCode)). AllTaken library later_ms x left)
            (sym (ap (λ (w : World library). w.responses) e ∙ q.answers_left)) back)
          (omega (arith, few, n)))
