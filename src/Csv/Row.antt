-- ===== src/Csv/Row.antt =====
-- src/csv/CSVRow.h and src/csv/CSVRow.cpp: the class `CSVRow`.
pub mod Fields
pub mod Split
pub mod Columns
pub mod RoundTrip
use csv_to_kafka_using_cpp.Prelude.{
  ℕ, suc, ◌+◌, ◌-◌, ◌^◌, ◌%◌, Bool, true, false, not, ◌&&◌, Option, none, some, List, [], ◌∷◌, ◌++◌,
  ◌≡◌, refl, ◌==◌, if◌then◌else◌, get_elem?, set, keep_if, length,
}
use csv_to_kafka_using_cpp.Prelude.Text.{Text, codes, assign}
use csv_to_kafka_using_cpp.Prelude.Result.{Result, ok, undefined, ◌>>=◌}
use csv_to_kafka_using_cpp.Csv.Stream.{Stream, getline}

pub data CsvState : Type 0 where
  unquoted_field quoted_field quoted_quote : CsvState

-- `m_map_data` is read and written by `operator[]` alone, so it is a function here.
pub record CsvRow : Type 0 where
  pub m_line : Text
  pub m_fields : List Text
  pub m_data : List ℕ
  pub m_columns : List Text
  pub m_map_data : Text → Text

abbrev pub empty_row : CsvRow
empty_row = record { m_line = []; m_fields = []; m_data = []; m_columns = []; m_map_data = λ _. [] }

-- `operator[](std::size_t)`: an index out of range is undefined behaviour.
unfoldable pub field_at : CsvRow → ℕ → Result Text
field_at row index = elim (get_elem? row.m_fields index) [ none ↦ undefined | some f ↦ ok f ]

-- `operator[](const std::string)`, to read and to write.
abbrev pub column : CsvRow → Text → Text
column row name = row.m_map_data name

unfoldable pub set_column : CsvRow → Text → Text → CsvRow
set_column row name v = record row { m_map_data = assign row.m_map_data name v }

-- `m_data.size() - 1`, in `std::size_t`.
unfoldable pub size : CsvRow → ℕ
size row = (length row.m_data + 2 ^ 64 - 1) % 2 ^ 64

unfoldable pub set_columns : CsvRow → List Text → CsvRow
set_columns row columns = record row { m_columns = columns }

-- Without line ends: what the two `erase(remove(...))` leave.
abbrev pub is_line_end : ℕ → Bool
is_line_end c = if c == b'\n' then true else c == b'\r'

abbrev pub strip_line : Text → Text
strip_line = keep_if (λ c. not (is_line_end c))

-- The locals of `next`.
pub record Scan : Type 0 where
  pub state : CsvState
  pub i : ℕ
  pub row : CsvRow

-- `m_map_data[m_columns[i]] = m_fields[i]`
unfoldable pub store_field : Scan → Result CsvRow
unfolding set_column
store_field s = elim (get_elem? s.row.m_columns s.i) [
  | none ↦ undefined
  | some name ↦ elim (get_elem? s.row.m_fields s.i) [
    | none ↦ undefined
    | some f ↦ ok (set_column s.row name f)
  ]
]

-- `m_fields[i].push_back(c)`
unfoldable pub push_char : Scan → ℕ → Result Scan
push_char s c = elim (get_elem? s.row.m_fields s.i) [
  | none ↦ undefined
  | some f ↦
      ok (record s { row = record s.row { m_fields = set s.row.m_fields s.i (f ++ c ∷ []) } })
]

-- At a comma: store the field, begin the next one.
unfoldable pub end_field : Scan → Result Scan
unfolding store_field
end_field s = do
  row ← store_field s
  ok (record {
    state = unquoted_field;
    i = s.i + 1;
    row = record row { m_fields = row.m_fields ++ [] ∷ [] };
  })

-- The body of the loop of `next`.
unfoldable pub step_in : CsvState → Scan → ℕ → Result Scan
unfolding end_field push_char
step_in unquoted_field s c =
    if c == b','
    then end_field s
    else if c == b'"'
    then ok (record s { state = quoted_field })
    else push_char s c
step_in quoted_field s c =
    if c == b'"' then ok (record s { state = quoted_quote }) else push_char s c
step_in quoted_quote s c =
    if c == b','
    then end_field s
    else if c == b'"'
    then (do t ← push_char s b'"'; ok (record t { state = quoted_field }))
    else ok (record s { state = unquoted_field })

unfoldable pub scan : Scan → Text → Result Scan
unfolding step_in
scan s [] = ok s
scan s (c ∷ cs) = do t ← step_in s.state s c; scan t cs

-- `next` behind the `getline`: the line is in `m_line`.
unfoldable pub parse_line : CsvRow → Result CsvRow
unfolding scan store_field
parse_line row = do
  let line = strip_line row.m_line
  s ←
      scan
        (record {
          state = unquoted_field;
          i = 0;
          row = record row { m_line = line; m_fields = [] ∷ [] };
        })
        line
  store_field s

-- `operator>>` is `next`; the stream comes back with its state.
unfoldable pub next : Stream → CsvRow → Result (Stream × CsvRow)
unfolding getline
next stream row = do
  let r = getline b'\n' stream row.m_line
  parsed ← parse_line (record row { m_line = r.1 })
  ok (r.0, parsed)

join_columns : Text → List Text → CsvRow → Text
join_columns sep [] row = []
join_columns sep (col ∷ cols) row = sep ++ column row col ++ join_columns (codes ",") cols row

-- `operator std::string`
unfoldable pub to_string : CsvRow → Text
unfolding join_columns
to_string row = join_columns [] row.m_columns row
