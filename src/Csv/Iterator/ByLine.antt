-- ===== src/Csv/Iterator/ByLine.antt =====
-- A file as a list of lines, and a loop over them, which a loop over a `CSVRange`
-- (src/csv/CSVIterator.cpp) is to be.
use csv_to_kafka_using_cpp.Prelude.{
  append-nil, append_assoc, Bool, true, false, Option, none, some, List, [], ◌∷◌, ◌++◌, ◌≡◌, arith,
  ◌==◌, if◌then◌else◌, is_empty,
}
use csv_to_kafka_using_cpp.Prelude.Text.{Text}
use csv_to_kafka_using_cpp.Prelude.Result.{Result, ok, throws, undefined}
use csv_to_kafka_using_cpp.Csv.Stream.{cut}
use csv_to_kafka_using_cpp.Csv.Row.{CsvRow, empty_row, set_columns, parse_line}
use csv_to_kafka_using_cpp.Csv.Iterator.{header_columns}

-- The lines of a text: each ends with a newline, but the last one may go without if it is not
-- empty.
unfoldable pub lines_from : Text → Text → List Text
lines_from line [] = if is_empty line then [] else line ∷ []
lines_from line (c ∷ cs) =
    let first = line ∷ lines_from [] cs in
    let longer = lines_from (line ++ c ∷ []) cs in if c == b'\n' then first else longer

abbrev pub lines_of : Text → List Text
lines_of = lines_from []

-- The same loop over a list of lines, with no stream and no iterator.
module _ {ℓ} {S : Type ℓ} (body : CsvRow → S → Result (CsvRow × S × Bool)) where
  unfoldable pub for_lines : List Text → CsvRow → S → Result S
  for_lines [] row s = ok s
  for_lines (line ∷ lines) row s = elim (parse_line (record row { m_line = line })) [
    | undefined ↦ undefined
    | throws e ↦ throws e
    | ok read ↦ elim (body read s) [
      | undefined ↦ undefined
      | throws e ↦ throws e
      | ok (row', s', more) ↦ elim more [ true ↦ for_lines lines row' s' | false ↦ ok s' ]
    ]
  ]

unfoldable pub lines_pieces : Text → Text → Option Text → List Text
lines_pieces line piece none = if is_empty (line ++ piece) then [] else (line ++ piece) ∷ []
lines_pieces line piece (some after) = (line ++ piece) ∷ lines_of after

pub lines_from-cut :
    (t line : Text) → lines_from line t ≡ lines_pieces line (cut b'\n' t).0 (cut b'\n' t).1
unfolding lines_from cut lines_pieces
lines_from-cut [] line = ground (arith, append-nil line)
lines_from-cut (c ∷ cs) line = ground (
  arith,
  lines_from-cut cs (line ++ c ∷ []),
  append_assoc line (c ∷ []) (cut b'\n' cs).0,
  append-nil line,
)

-- The characters behind the header line.
abbrev pub body_of : Text → Text
body_of content = elim (cut b'\n' content).1 [ none ↦ [] | some after ↦ after ]

-- The row that the iterator begins with: its columns are those of the header.
abbrev pub first_row : Text → CsvRow
first_row content = set_columns empty_row (header_columns (cut b'\n' content).0)
