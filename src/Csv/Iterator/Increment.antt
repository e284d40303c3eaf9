-- ===== src/Csv/Iterator/Increment.antt =====
-- `CSVIterator::operator++` (src/csv/CSVIterator.cpp) in front of a line, and at the end of the stream.
use csv_to_kafka_using_cpp.Prelude.{
  ◌≤◌, Bool, true, false, none, some, [], ◌≡◌, refl, arith, keep_if-all, all-keep_if, length, inl,
  inr, is_empty, le_or_lt,
}
use csv_to_kafka_using_cpp.Prelude.Text.{Text}
use csv_to_kafka_using_cpp.Prelude.Result.{ok, ◌>>=◌}
use csv_to_kafka_using_cpp.Csv.Stream.{Stream, good, succeeded, opened, cut, getline}
use csv_to_kafka_using_cpp.Csv.Row.{CsvRow, strip_line, parse_line, next}
use csv_to_kafka_using_cpp.Csv.Row.Fields.{split, fields_of}
use csv_to_kafka_using_cpp.Csv.Row.Columns.{parse_line_total}
use csv_to_kafka_using_cpp.Csv.Iterator.{
  CsvIterator, post_increment, iterator_set_columns, increment,
}

-- A row with room for the fields of its line: its line can be read (again).
abbrev pub IsReadable : CsvRow → Type 0
IsReadable row = length (fields_of row.m_line) ≤ length row.m_columns

abbrev pub at : CsvRow → Stream → CsvIterator
at row stream = record { m_has_header = false; m_stream = some stream; m_row = row }

abbrev pub ended : Bool → Stream
ended failed = record { rest = []; eof = true; failed = failed }

-- The stream at its end: the iterator reads its old line once more, and lets go of the stream.
pub increment-ended :
    (row : CsvRow)
    → IsReadable row
    → (it : CsvIterator) × (increment (at row (ended false)) ≡ ok it) × (it.m_stream ≡ none)
unfolding increment next getline good succeeded
increment-ended row h =
    let (read, e, _, _, _) = (parse_line_total row).0 h in
    (record { m_has_header = false; m_stream = none; m_row = read }, rw e, refl)

pub increment_line :
    (row : CsvRow) (t after : Text)
    → (cut b'\n' t).1 ≡ some after
    → increment (at row (opened t)) ≡ (
        parse_line (record row { m_line = (cut b'\n' t).0 }) >>= λ read.
        ok (at read (opened after)))
unfolding increment next getline good succeeded
increment_line row t after e = ground arith

pub increment_last :
    (row : CsvRow) (t : Text)
    → (cut b'\n' t).1 ≡ none
    → is_empty (cut b'\n' t).0 ≡ false
    → increment (at row (opened t)) ≡ (
        parse_line (record row { m_line = (cut b'\n' t).0 }) >>= λ read. ok (at read (ended false)))
unfolding increment next getline good succeeded
increment_last row t e f = ground arith

pub increment_nothing :
    (row : CsvRow) (t : Text)
    → 1 ≤ length row.m_columns
    → (cut b'\n' t).1 ≡ none
    → is_empty (cut b'\n' t).0 ≡ true
    → (it : CsvIterator) × (increment (at row (opened t)) ≡ ok it) × (it.m_stream ≡ none)
unfolding increment next getline good succeeded
increment_nothing row t h e f =
    let (read, r, _, _, _) =
      (parse_line_total (record row { m_line = [] })).0 (unfold split in h) in
    (record { m_has_header = false; m_stream = none; m_row = read }, ground arith, refl)

strip_line_twice : (t : Text) → strip_line (strip_line t) ≡ strip_line t
strip_line_twice t = keep_if-all _ (strip_line t) (all-keep_if _ t)

-- What has been read is readable again, and has the same header.
pub parse_line-IsReadable :
    (row read : CsvRow)
    → parse_line row ≡ ok read
    → IsReadable read × (read.m_columns ≡ row.m_columns)
parse_line-IsReadable row read e =
    elim (le_or_lt (length (fields_of row.m_line)) (length row.m_columns)) [
      | inl fits ↦
          let (row', e', _, c, l) = (parse_line_total row).0 fits in
          let same : read ≡ row' = cc in rw (same, l, c, strip_line_twice row.m_line) (fits, refl)
      | inr wide ↦ let u = (parse_line_total row).1 wide in cc
    ]

-- The post-increment steps as the pre-increment does, and the copy keeps its row.
post_increment-increment :
    (it : CsvIterator)
    → ((post_increment it >>= λ r. ok r.1) ≡ increment it)
      × ((tmp after : CsvIterator) → post_increment it ≡ ok (tmp, after) → tmp.m_row ≡ it.m_row)
unfolding post_increment increment iterator_set_columns
post_increment-increment it = (grind arith, λ tmp after e. grind arith)
