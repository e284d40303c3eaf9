-- ===== src/Processor/Handle/Success.antt =====
-- `CsvProcessor::handle` (src/impl/CsvProcessor.cpp) of a file whose rows can all be sent.
use csv_to_kafka_using_cpp.Prelude.{◌^◌, ◌<◌, true, some, List, [], ◌∷◌, ◌++◌, ◌≡◌, refl, ap, ◌∙◌}
use csv_to_kafka_using_cpp.Prelude.Text.{Text}
use csv_to_kafka_using_cpp.Prelude.Result.{ok}
use csv_to_kafka_using_cpp.Csv.Row.{CsvRow, parse_line}
use csv_to_kafka_using_cpp.Csv.Iterator.ByLine.{lines_of, for_lines, body_of, first_row}
use csv_to_kafka_using_cpp.Transformers.{Transformer, operations}
use csv_to_kafka_using_cpp.Processor.State.{Library, World, value}
use csv_to_kafka_using_cpp.Processor.Publish.{publish}
use csv_to_kafka_using_cpp.Processor.Handle.{
  processing, done, Job, settle, row_step, Site, finish, after_loop, fresh, handle,
}
use csv_to_kafka_using_cpp.Processor.Handle.Lines.{handle-for_lines}
use csv_to_kafka_using_cpp.Processor.Handle.Files.{IsMoved, rename-rename, counter_back}

module _ (library : Library) (m_transformers : List Transformer) where
  -- Each line is read, transformed and published, one after the other, from the first state to
  -- the second. The row is the one that the iterator goes on with.
  pub data Published : List Text → CsvRow → World library → World library → Type 0 where
    all_published : {row : CsvRow} {w : World library} → Published [] row w w
    published :
        {line : Text} {lines : List Text} {row : CsvRow} {u v w : World library} (read : CsvRow)
        → parse_line (record row { m_line = line }) ≡ ok read
        → publish library (operations m_transformers read) u ≡ (v, value tt)
        → Published lines (operations m_transformers read) v w
        → Published (line ∷ lines) row u w

  row_step_published :
      (read : CsvRow) (job : Job (World library)) (v : World library)
      → publish library (operations m_transformers read) job.world ≡ (v, value tt)
      → row_step library m_transformers read job
        ≡ ok (operations m_transformers read, record job { world = v }, true)
  unfolding row_step settle
  row_step_published read job v p = rw p refl

  for_lines-Published :
      {lines : List Text} {row : CsvRow} {u w : World library} (job : Job (World library))
      → job.world ≡ u
      → Published lines row u w
      → for_lines (row_step library m_transformers) lines row job ≡ ok (record job { world = w })
  unfolding for_lines
  for_lines-Published job e all_published = ap (λ x. ok (record job { world = x })) e
  for_lines-Published job e (published {v = v} read parsed sent later) =
      let step =
        row_step_published read job v
          (ap (publish library (operations m_transformers read)) e ∙ sent) in
      rw (parsed, for_lines) (rw step (for_lines-Published (record job { world = v }) refl later))

  -- Where every line behind the header can be read and published, `handle` returns. The rows were
  -- transformed and published one after the other, the file is at its finished path with its
  -- content, the counter is as before, and the log has the two entries of a file without errors.
  handle-Published :
      (path content : Text) (site : Site library) (w : World library)
      → site.files path ≡ some content
      → site.active_processors < 2 ^ 64
      → Published
          (lines_of (body_of content))
          (first_row content)
          (record (site.world) { old_count = 0 })
          w
      → let r = handle library m_transformers path site in
        (r.1 ≡ value tt)
        × (r.0.world ≡ w)
        × IsMoved path content site.files r.0.files
        × (r.0.active_processors ≡ site.active_processors)
        × (r.0.reports ≡ site.reports ++ processing ∷ [] ++ done w.old_count ∷ [])
  unfolding after_loop finish
  handle-Published path content site w h n p =
      rw
        (
          handle-for_lines library m_transformers path content site h,
          for_lines-Published (fresh library site.world site.reports) refl p,
        )
        (
          refl,
          refl,
          rename-rename path content site.files h,
          counter_back site.active_processors n,
          refl,
        )
