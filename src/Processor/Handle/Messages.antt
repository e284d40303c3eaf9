-- ===== src/Processor/Handle/Messages.antt =====
-- The messages of a whole file: `CsvProcessor::handle` over `publish` (src/impl/CsvProcessor.cpp), where
-- some rows fail.
use csv_to_kafka_using_cpp.Prelude.{ℕ, ◌^◌, ◌≤◌, ◌<◌, some, List, ◌++◌, ◌≡◌, refl, arith}
use csv_to_kafka_using_cpp.Prelude.Text.{Text}
use csv_to_kafka_using_cpp.Csv.Iterator.ByLine.{lines_of, body_of, first_row}
use csv_to_kafka_using_cpp.Transformers.{Transformer}
use csv_to_kafka_using_cpp.Processor.State.{ErrorCode, Message, Library, value}
use csv_to_kafka_using_cpp.Processor.Publish.Messages.{AllTaken}
use csv_to_kafka_using_cpp.Processor.Handle.{Site, finish, after_loop, fresh, handle}
use csv_to_kafka_using_cpp.Processor.Handle.Lines.{handle-for_lines}
use csv_to_kafka_using_cpp.Processor.Handle.Files.{IsMoved, rename-rename, counter_back}
use csv_to_kafka_using_cpp.Processor.Handle.Rows.{LinesSend, for_lines-LinesSend}

module _ (library : Library) (m_transformers : List Transformer) where
  -- Where the rows of a file send their messages as far as nothing stops them, at most 13 of them
  -- are stopped by an exception, and the producer takes each message after some retries, `handle`
  -- returns. The producer has got the messages of each row, up to the topic that finds the row too
  -- old or throws, in the order of the topics, and those of the rows in the order of the file. The
  -- ages are checked where the configuration asks for it. The answers for later messages are left,
  -- the file is at its finished path with its content, and the counter is as before.
  pub handle-LinesSend :
      (path content : Text) (site : Site library) {ms : List Message} {fails l : ℕ}
      {left : List (List ErrorCode)}
      → site.files path ≡ some content
      → site.active_processors < 2 ^ 64
      → LinesSend library m_transformers site.world.m_schemas
          (lines_of (body_of content))
          (first_row content)
          site.world.readings
          ms
          fails
          l
      → AllTaken library ms site.world.responses left
      → fails ≤ 13
      → let r = handle library m_transformers path site in
        (r.1 ≡ value tt)
        × (r.0.world.produced ≡ site.world.produced ++ ms)
        × (r.0.world.responses ≡ left)
        × IsMoved path content site.files r.0.files
        × (r.0.active_processors ≡ site.active_processors)
  unfolding after_loop finish
  handle-LinesSend path content site h n s t few =
      let (job', looped, sent) =
        for_lines-LinesSend library m_transformers (fresh library site.world site.reports) s refl
          refl t (omega (arith, few)) in
      rw
        (
          handle-for_lines library m_transformers path content site h,
          looped,
          after_loop,
          sent.going_on,
        )
        (
          refl,
          sent.produced,
          sent.answers_left,
          rename-rename path content site.files h,
          counter_back site.active_processors n,
        )
