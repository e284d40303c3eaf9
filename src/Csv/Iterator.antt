-- ===== src/Csv/Iterator.antt =====
-- src/csv/CSVIterator.cpp and src/csv/CSVRange.cpp: the iterator over the rows of a stream.
pub mod Header
pub mod ByLine
pub mod Increment
pub mod Lines
use csv_to_kafka_using_cpp.Prelude.{
  ℕ, zero, suc, Bool, true, false, not, ◌&&◌, ◌||◌, Option, none, some, List, [], ◌∷◌, ◌++◌, ◌≡◌,
  refl, ◌==◌, if◌then◌else◌, keep_if, length,
}
use csv_to_kafka_using_cpp.Prelude.Text.{Text}
use csv_to_kafka_using_cpp.Prelude.Result.{Result, ok, throws, undefined, ◌>>=◌}
use csv_to_kafka_using_cpp.Csv.Stream.{Stream, good, succeeded, opened, getline}
use csv_to_kafka_using_cpp.Csv.Row.{CsvRow, empty_row, next, set_columns}

-- `m_stream` is a pointer to the stream that the iterator alone reads: `none` is `nullptr`.
pub record CsvIterator : Type 0 where
  pub m_has_header : Bool
  pub m_stream : Option Stream
  pub m_row : CsvRow

-- The two `erase(remove(...))` of a column name.
abbrev strip_column : Text → Text
strip_column t = keep_if (λ c. not (c == b'\r')) (keep_if (λ c. not (c == b'\n')) t)

-- `while (ss.good()) { getline(ss, column, ','); ... columns.emplace_back(column); }`, with fuel.
unfoldable pub read_columns : ℕ → Stream → List Text
unfolding good getline
read_columns zero ss = []
read_columns (suc fuel) ss =
    let r = getline b',' ss [] in
    let rest = strip_column r.1 ∷ read_columns fuel r.0 in if good ss then rest else []

-- Every round but the last reads a comma, so the loop makes at most one round more than the
-- header has characters.
unfoldable pub header_columns : Text → List Text
unfolding read_columns
header_columns header = read_columns (suc (length header)) (opened header)

-- `set_columns` of the iterator: the header line is read into an empty string.
unfoldable pub iterator_set_columns : Stream → CsvRow → Stream × CsvRow
unfolding header_columns set_columns
iterator_set_columns stream row =
    let r = getline b'\n' stream [] in (r.0, set_columns row (header_columns r.1))

-- `(*m_stream) >> m_row`, and the stream is dropped once it has failed.
advance : Stream × CsvRow → Result CsvIterator
advance (stream, row) = do
  (after, read) ← next stream row
  ok (record {
    m_has_header = false;
    m_stream = if succeeded after then some after else none;
    m_row = read;
  })

-- `operator++()`
unfoldable pub increment : CsvIterator → Result CsvIterator
unfolding advance iterator_set_columns
increment it = elim it.m_stream [
  | none ↦ ok it
  | some stream ↦
      advance (if it.m_has_header then iterator_set_columns stream it.m_row else (stream, it.m_row))
]

-- `operator++(int)`: the copy from before the step, and the iterator. The two have one stream, so the
-- copy, too, is in front of what is left of it.
post_advance : CsvIterator → Stream × CsvRow → Result (CsvIterator × CsvIterator)
post_advance tmp (stream, row) = do
  (after, read) ← next stream row
  ok (
    record tmp { m_stream = some after },
    record {
      m_has_header = false;
      m_stream = if succeeded after then some after else none;
      m_row = read;
    },
  )

unfoldable pub post_increment : CsvIterator → Result (CsvIterator × CsvIterator)
unfolding post_advance iterator_set_columns
post_increment it = elim it.m_stream [
  | none ↦ ok (it, it)
  | some stream ↦
      post_advance it
        (if it.m_has_header then iterator_set_columns stream it.m_row else (stream, it.m_row))
]

-- `CSVIterator(stream, has_header)`, which `CSVRange::begin` calls.
unfoldable pub begin : Stream → Bool → Result CsvIterator
unfolding increment
begin stream has_header = increment (record {
  m_has_header = has_header;
  m_stream = if good stream then some stream else none;
  m_row = empty_row;
})

-- `operator==` with the iterator of `CSVRange::end`, whose stream is `nullptr`. The two are never
-- one object.
unfoldable pub at_end : CsvIterator → Bool
at_end it = elim it.m_stream [ none ↦ true | some _ ↦ false ]

-- `for (auto &row : CSVRange(...)) body`, with fuel: `none` means that the fuel ran out. The body
-- may change the row, which the iterator goes on with, and says whether to go on.
module _ {ℓ} {S : Type ℓ} (body : CsvRow → S → Result (CsvRow × S × Bool)) where
  unfoldable pub for_rows : ℕ → Result CsvIterator → S → Option (Result S)
  unfolding at_end
  for_rows zero it s = none
  for_rows (suc fuel) undefined s = some undefined
  for_rows (suc fuel) (throws e) s = some (throws e)
  for_rows (suc fuel) (ok it) s = elim (at_end it) [
    | true ↦ some (ok s)
    | false ↦ elim (body it.m_row s) [
      | undefined ↦ some undefined
      | throws e ↦ some (throws e)
      | ok (row, s', more) ↦ elim more [
        | true ↦ for_rows fuel (increment (record it { m_row = row })) s'
        | false ↦ some (ok s')
      ]
    ]
  ]
