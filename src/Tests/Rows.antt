-- ===== src/Tests/Rows.antt =====
-- src/csv and src/impl/Util.cpp at concrete lines, headers and files.
use csv_to_kafka_using_cpp.Prelude.{
  ◌≤◌, ◌<◌, Bool, true, some, List, [], ◌∷◌, ◌++◌, ◌≡◌, ◌∙◌, refl, ap, arith, get_or, length,
}
use csv_to_kafka_using_cpp.Prelude.Text.{Text, codes, assign}
use csv_to_kafka_using_cpp.Prelude.Result.{Result, ok, undefined}
use csv_to_kafka_using_cpp.Csv.Stream.{opened}
use csv_to_kafka_using_cpp.Csv.Row.{CsvRow, empty_row, strip_line, column, parse_line}
use csv_to_kafka_using_cpp.Csv.Row.Split.{parse_line-split}
use csv_to_kafka_using_cpp.Csv.Row.Fields.{split, action, fields_of, store_columns, with_contents}
use csv_to_kafka_using_cpp.Csv.Row.Columns.{parse_line-column, parse_line_total}
use csv_to_kafka_using_cpp.Csv.Row.RoundTrip.{plain, quoted, write_line, double_quotes, write_field}
use csv_to_kafka_using_cpp.Csv.Table.{Line, write_lines, write_table, for_rows-write_table}
use csv_to_kafka_using_cpp.Csv.Table.{collect as collect_columns}
use csv_to_kafka_using_cpp.Csv.Iterator.{header_columns, begin, for_rows}
use csv_to_kafka_using_cpp.Csv.Iterator.Header.{header_columns-fields_of}
use csv_to_kafka_using_cpp.Csv.Iterator.Lines.{for_rows-file}
use csv_to_kafka_using_cpp.Csv.Iterator.ByLine.{lines_of, for_lines, body_of, first_row}

-- A row with a header of two columns, about to read `a,"b,c"`.
abbrev two_columns : CsvRow
two_columns = record empty_row {
  m_line = codes "a,\"b,c\"\r";
  m_columns = codes "id" ∷ codes "name" ∷ [];
}

parse_line-split_example :
    parse_line two_columns
    ≡ with_contents
        (record two_columns { m_line = strip_line two_columns.m_line })
        (fields_of two_columns.m_line)
        (store_columns two_columns.m_columns (fields_of two_columns.m_line) two_columns.m_map_data)
parse_line-split_example = parse_line-split two_columns

abbrev read_two : CsvRow
read_two = record two_columns {
  m_line = codes "a,\"b,c\"";
  m_fields = codes "a" ∷ codes "b,c" ∷ [];
  m_map_data = assign (assign (λ _. []) (codes "id") (codes "a")) (codes "name") (codes "b,c");
}

two_fields : fields_of two_columns.m_line ≡ codes "a" ∷ codes "b,c" ∷ []
unfolding split action
two_fields = refl

two_read : parse_line two_columns ≡ ok read_two
unfolding store_columns
two_read = parse_line-split two_columns ∙ rw two_fields refl

parse_line-column_example :
    column read_two (codes "name")
    ≡ get_or (fields_of two_columns.m_line) 1 (column two_columns (codes "name"))
parse_line-column_example =
    parse_line-column two_columns read_two 1 (codes "name") (((λ e. cc, tt), (tt, tt))) refl
      two_read

parse_line_total_example :
    (length (fields_of two_columns.m_line) ≤ length two_columns.m_columns
      → (row' : CsvRow) × (parse_line two_columns ≡ ok row')
        × (row'.m_fields ≡ fields_of two_columns.m_line)
        × (row'.m_columns ≡ two_columns.m_columns)
        × (row'.m_line ≡ strip_line two_columns.m_line))
    × (length two_columns.m_columns < length (fields_of two_columns.m_line)
        → parse_line two_columns ≡ undefined)
parse_line_total_example = parse_line_total two_columns

header_columns-fields_of_example : header_columns (codes "id,name,") ≡ fields_of (codes "id,name,")
header_columns-fields_of_example = header_columns-fields_of (codes "id,name,") refl

-- A body that collects a column and goes on.
abbrev collect : CsvRow → List Text → Result (CsvRow × List Text × Bool)
collect row seen = ok (row, seen ++ column row (codes "id") ∷ [], true)

abbrev small_file : Text
small_file = codes "id,name\n1,x\n2,y"

for_rows-file_example :
    for_rows collect 30 (begin (opened small_file) true) []
    ≡ some (for_lines collect (lines_of (body_of small_file)) (first_row small_file) [])
for_rows-file_example =
    for_rows-file collect (λ row row' s s' more h. (ground arith, ground arith)) 30 small_file []
      (omega arith)

-- A table with a quoted value, and one with a value that has a comma and quotes.
abbrev table : List Line
table =
    record { first = (plain, codes "1"); later = (quoted, codes "x") ∷ [] }
    ∷ record { first = (plain, []); later = (quoted, codes "say \"b\", c") ∷ [] }
    ∷ []

table_text :
    write_table (codes "id") (codes "name" ∷ []) table
    ≡ codes "id,name\n1,\"x\"\n,\"say \"\"b\"\", c\"\n"
unfolding write_lines write_line write_field double_quotes
table_text = refl

for_rows-write_table_example :
    for_rows
      (collect_columns (codes "id" ∷ codes "name" ∷ []))
      60
      (begin (opened (write_table (codes "id") (codes "name" ∷ []) table)) true)
      []
    ≡ some (ok ((codes "1" ∷ codes "x" ∷ []) ∷ (codes "" ∷ codes "say \"b\", c" ∷ []) ∷ []))
for_rows-write_table_example =
    for_rows-write_table 60 (codes "id") (codes "name" ∷ []) table
      (omega (arith, ap (λ (t : Text). length t) table_text)) ((λ e. cc, tt), (tt, tt))
      (refl, (refl, tt)) (((refl, (refl, tt)), refl), (((refl, (refl, tt)), refl), tt))
