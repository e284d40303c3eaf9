-- ===== src/Csv/Table.antt =====
-- A table written to a file is read back by a loop over a `CSVRange` (src/csv).
use csv_to_kafka_using_cpp.Prelude.{
  Option, none, ℕ, suc, ◌+◌, ◌<◌, Bool, true, some, List, [], ◌∷◌, ◌++◌, map, ◌≡◌, refl, sym, ap,
  ◌∙◌, subst, arith, all, all-append, length, get_elem?, get_or, append_assoc, append-nil,
}
use csv_to_kafka_using_cpp.Prelude.Text.{Text}
use csv_to_kafka_using_cpp.Prelude.Result.{Result, ok}
use csv_to_kafka_using_cpp.Csv.Stream.{opened, cut}
use csv_to_kafka_using_cpp.Csv.Row.{CsvRow, set_columns, parse_line, column}
use csv_to_kafka_using_cpp.Csv.Row.Fields.{fields_of}
use csv_to_kafka_using_cpp.Csv.Row.Columns.{IsDistinct, parse_line-column, parse_line_total}
use csv_to_kafka_using_cpp.Csv.Row.RoundTrip.{
  Style, plain, is_plain, no_line_end, write_field, write_line, AreWritable, all-write_line,
  fields_of-write_line,
}
use csv_to_kafka_using_cpp.Csv.Iterator.{header_columns, begin, for_rows}
use csv_to_kafka_using_cpp.Csv.Iterator.Header.{no_quote, header_columns-fields_of}
use csv_to_kafka_using_cpp.Csv.Iterator.ByLine.{
  body_of, first_row, lines_of, for_lines, lines_pieces, lines_from-cut,
}
use csv_to_kafka_using_cpp.Csv.Iterator.Lines.{for_rows-file}

-- A line has at least one field.
pub record Line : Type 0 where
  pub first : Style × Text
  pub later : List (Style × Text)

abbrev pub line_text : Line → Text
line_text l = write_line l.first l.later

abbrev pub values : Line → List Text
values l = l.first.1 ∷ map (λ f. f.1) l.later

unfoldable pub write_lines : List Line → Text
write_lines [] = []
write_lines (l ∷ ls) = line_text l ++ b'\n' ∷ write_lines ls

-- The names of the header are written as they are.
abbrev pub header_of : Text → List Text → Line
header_of name names = record { first = (plain, name); later = map (λ n. (plain, n)) names }

abbrev pub write_table : Text → List Text → List Line → Text
write_table name names ls = write_lines (header_of name names ∷ ls)

-- A table has a value for every column in each line.
abbrev pub AreLines : ℕ → List Line → Type 0
AreLines n [] = Unit
AreLines n (l ∷ ls) = (AreWritable (l.first ∷ l.later) × (length (values l) ≡ n)) × AreLines n ls

-- The body that collects what a row has in some columns.
abbrev pub collect :
    List Text → CsvRow → List (List Text) → Result (CsvRow × List (List Text) × Bool)
collect names row seen = ok (row, seen ++ map (column row) names ∷ [], true)

cut_line :
    (t after : Text) → all no_line_end t ≡ true → cut b'\n' (t ++ b'\n' ∷ after) ≡ (t, some after)
unfolding cut
cut_line [] after h = refl
cut_line (c ∷ cs) after h = ground (arith, cut_line cs after)

lines_of-write_lines :
    (n : ℕ) (ls : List Line) → AreLines n ls → lines_of (write_lines ls) ≡ map line_text ls
unfolding write_lines lines_pieces cut
lines_of-write_lines n [] h = lines_from-cut [] []
lines_of-write_lines n (l ∷ ls) h =
    let whole =
      cut_line (line_text l) (write_lines ls) (all-write_line l.first.0 l.first.1 l.later h.0.0) in
    lines_from-cut (line_text l ++ b'\n' ∷ write_lines ls) []
    ∙ rw whole (ap (◌∷◌ (line_text l)) (lines_of-write_lines n ls h.1))

-- Where each name has the field at its place, the names have the fields.
map_at_places :
    (value : Text → Text) (before : Text → Text) (names fields : List Text)
    → length fields ≡ length names
    → ((i : ℕ) (name : Text)
        → get_elem? names i ≡ some name
        → value name ≡ get_or fields i (before name))
    → map value names ≡ fields
map_at_places value before [] [] l h = refl
map_at_places value before [] (f ∷ fs) l h = let no : ⊥ = omega (arith, l) in elim no [ ]
map_at_places value before (n ∷ ns) [] l h = let no : ⊥ = omega (arith, l) in elim no [ ]
map_at_places value before (n ∷ ns) (f ∷ fs) l h =
    let here : value n ≡ f = h 0 n refl in
    let rest = map_at_places value before ns fs (omega (arith, l)) (λ i m e. h (suc i) m e) in cc

-- One line is read into the columns.
read_line :
    (row : CsvRow) (l : Line)
    → IsDistinct row.m_columns
    → AreWritable (l.first ∷ l.later)
    → length (values l) ≡ length row.m_columns
    → (row' : CsvRow) × (parse_line (record row { m_line = line_text l }) ≡ ok row')
      × (row'.m_columns ≡ row.m_columns)
      × (map (column row') row.m_columns ≡ values l)
read_line row l d w n =
    let here : CsvRow = record row { m_line = line_text l } in
    let fields : fields_of (line_text l) ≡ values l =
      fields_of-write_line l.first.0 l.first.1 l.later w in
    let (row', parsed, _, columns, _) =
      (parse_line_total here).0 (omega (arith, n, ap (λ (f : List Text). length f) fields)) in
    (
      row',
      parsed,
      columns,
      map_at_places (column row') (column row) row.m_columns (values l) n (λ i name g.
          parse_line-column here row' i name d g parsed
          ∙ ap (λ (f : List Text). get_or f i (column row name)) fields),
    )

for_lines-collect :
    (names : List Text) (ls : List Line) (row : CsvRow) (seen : List (List Text))
    → row.m_columns ≡ names
    → IsDistinct names
    → AreLines (length names) ls
    → for_lines (collect names) (map line_text ls) row seen ≡ ok (seen ++ map values ls)
unfolding for_lines
for_lines-collect names [] row seen c d h = ap ok (sym (append-nil seen))
for_lines-collect names (l ∷ ls) row seen c d h =
    let (row', parsed, columns, got) =
      read_line row l (subst IsDistinct (sym c) d) h.0.0
        (h.0.1 ∙ ap (λ (x : List Text). length x) (sym c)) in
    let same : map (column row') names ≡ values l =
      subst (λ (x : List Text). map (column row') x ≡ values l) c got in
    rw (parsed, for_lines)
      (for_lines-collect names ls row' _ (columns ∙ c) d h.1
        ∙ ap (λ (x : List Text). ok ((seen ++ x ∷ []) ++ map values ls)) same
        ∙ ap ok (append_assoc seen (values l ∷ []) (map values ls)))

plain_no_quote : (t : Text) → all is_plain t ≡ true → all no_quote t ≡ true
plain_no_quote [] h = refl
plain_no_quote (c ∷ cs) h = ground (arith, plain_no_quote cs)

header_no_quote :
    (name : Text) (names : List Text)
    → AreWritable ((plain, name) ∷ (header_of name names).later)
    → all no_quote (line_text (header_of name names)) ≡ true
unfolding write_line write_field
header_no_quote name [] h = plain_no_quote name h.0
header_no_quote name (n ∷ ns) h =
    all-append no_quote name (b',' ∷ line_text (header_of n ns)) (plain_no_quote name h.0)
      (header_no_quote n ns h.1)

header_names : (names : List Text) → map (λ f. f.1) (header_of [] names).later ≡ names
header_names [] = refl
header_names (n ∷ ns) = ap (◌∷◌ n) (header_names ns)

-- The header gives its names.
header_columns-header_of :
    (name : Text) (names : List Text)
    → AreWritable ((plain, name) ∷ (header_of name names).later)
    → header_columns (line_text (header_of name names)) ≡ name ∷ names
header_columns-header_of name names h =
    header_columns-fields_of (line_text (header_of name names)) (header_no_quote name names h)
    ∙ fields_of-write_line plain name (header_of name names).later h
    ∙ ap (◌∷◌ name) (header_names names)

after_header : Option Text → Text
after_header none = []
after_header (some after) = after

body_of-write_lines :
    (l : Line) (ls : List Line)
    → AreWritable (l.first ∷ l.later)
    → (body_of (write_lines (l ∷ ls)) ≡ write_lines ls)
      × ((first_row (write_lines (l ∷ ls))).m_columns ≡ header_columns (line_text l))
unfolding write_lines set_columns after_header
body_of-write_lines l ls h =
    let whole =
      cut_line (line_text l) (write_lines ls) (all-write_line l.first.0 l.first.1 l.later h) in
    (
      ap (λ (r : Text × Option Text). after_header r.1) whole,
      ap (λ (r : Text × Option Text). header_columns r.0) whole,
    )

-- A file is written with a header of different names, which have no comma, quote or line end, and
-- lines with a value for each name, which have no line end and are written in quotes or, where
-- they have no comma and no quote, as they are. The loop over `CSVRange(file, true)` ends, and its
-- rows have in the columns of the header exactly these values, in the order of the file.
pub for_rows-write_table :
    (fuel : ℕ) (name : Text) (names : List Text) (ls : List Line)
    → length (write_table name names ls) + 1 < fuel
    → IsDistinct (name ∷ names)
    → AreWritable ((plain, name) ∷ (header_of name names).later)
    → AreLines (suc (length names)) ls
    → for_rows (collect (name ∷ names)) fuel (begin (opened (write_table name names ls)) true) []
      ≡ some (ok (map values ls))
for_rows-write_table fuel name names ls f d h w =
    let content = write_table name names ls in
    let (body, columns) = body_of-write_lines (header_of name names) ls h in
    let lines = ap lines_of body ∙ lines_of-write_lines (suc (length names)) ls w in
    for_rows-file (collect (name ∷ names)) (λ row row' s s' more e. (ground arith, ground arith))
      fuel content [] f
    ∙ ap (λ (x : List Text). some (for_lines (collect (name ∷ names)) x (first_row content) []))
        lines
    ∙ ap some (
        for_lines-collect (name ∷ names) ls (first_row content) []
          (columns ∙ header_columns-header_of name names h) d w)
