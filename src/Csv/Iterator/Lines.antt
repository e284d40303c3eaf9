-- ===== src/Csv/Iterator/Lines.antt =====
-- The loop over a `CSVRange` visits the lines behind the header (src/csv/CSVIterator.cpp).
use csv_to_kafka_using_cpp.Prelude.{
  ℕ, zero, suc, ◌+◌, ◌≤◌, ◌<◌, Bool, true, false, none, some, List, [], ◌∷◌, ◌≡◌, refl, sym, ap,
  ◌∙◌, arith, length, inl, inr, Option-cases, Bool-cases, is_empty,
}
use csv_to_kafka_using_cpp.Prelude.Text.{Text}
use csv_to_kafka_using_cpp.Prelude.Result.{Result, ok, ◌>>=◌, Result-cases}
use csv_to_kafka_using_cpp.Csv.Stream.{Stream, good, succeeded, opened, cut, getline}
use csv_to_kafka_using_cpp.Csv.Row.{CsvRow, empty_row, set_columns, parse_line, next}
use csv_to_kafka_using_cpp.Csv.Row.Fields.{split}
use csv_to_kafka_using_cpp.Csv.Row.Columns.{parse_line_total}
use csv_to_kafka_using_cpp.Csv.Iterator.{
  CsvIterator, header_columns, read_columns, increment, begin, for_rows,
}
use csv_to_kafka_using_cpp.Csv.Iterator.Header.{cut_shorter}
use csv_to_kafka_using_cpp.Csv.Iterator.ByLine.{
  lines_from, lines_of, for_lines, lines_pieces, lines_from-cut, body_of, first_row,
}
use csv_to_kafka_using_cpp.Csv.Iterator.Increment.{
  IsReadable, at, ended, increment-ended, increment_line, increment_last, increment_nothing,
  parse_line-IsReadable,
}

-- A body that does not touch the header or the line of the row it is given.
abbrev pub Keeps {ℓ} : {S : Type ℓ} → (CsvRow → S → Result (CsvRow × S × Bool)) → Type ℓ
Keeps {S = S} body =
    (row row' : CsvRow) (s s' : S) (more : Bool)
    → body row s ≡ ok (row', s', more)
    → (row'.m_line ≡ row.m_line) × (row'.m_columns ≡ row.m_columns)

module _ {ℓ} {S : Type ℓ} (body : CsvRow → S → Result (CsvRow × S × Bool))
    (keeps : Keeps body) where
  for_rows_stopped :
      (fuel : ℕ) (it : CsvIterator) (s : S)
      → it.m_stream ≡ none
      → for_rows body (suc fuel) (ok it) s ≡ some (ok s)
  unfolding for_rows
  for_rows_stopped fuel it s e = rw (e, for_rows)

  -- The last line has no newline: one more round sees the end of the stream.
  for_rows-ended :
      (fuel : ℕ) (row : CsvRow) (s : S)
      → 0 < fuel
      → IsReadable row
      → for_rows body fuel (increment (at row (ended false))) s ≡ some (ok s)
  for_rows-ended zero row s f h = elim f [ ]
  for_rows-ended (suc fuel) row s f h =
      let (it, e, f) = increment-ended row h in rw e (for_rows_stopped fuel it s f)

  -- One round of the loop over a line, where the later rounds are known.
  for_rows_line :
      (fuel : ℕ) (row : CsvRow) (line : Text) (lines : List Text) (stream : Stream) (s : S)
      → ((row' : CsvRow) (s' : S)
          → IsReadable row'
          → row'.m_columns ≡ row.m_columns
          → for_rows body fuel (increment (at row' stream)) s'
            ≡ some (for_lines body lines row' s'))
      → for_rows body
          (suc fuel)
          (parse_line (record row { m_line = line }) >>= λ read. ok (at read stream))
          s
        ≡ some (for_lines body (line ∷ lines) row s)
  unfolding for_rows for_lines
  for_rows_line fuel row line lines stream s later =
      elim (Result-cases (parse_line (record row { m_line = line }))) [
        | inl (read, e) ↦ elim (Result-cases (body read s)) [
          | inl ((row', s', true), b) ↦
              let (readable, columns) = parse_line-IsReadable _ read e in
              let (line', columns') = keeps read row' s s' true b in
              rw (e, for_lines)
                (rw (b, for_rows)
                  (later row' s' (rw (line', columns') readable) (columns' ∙ columns)))
          | inl ((row', s', false), b) ↦ rw (e, for_lines) (rw (b, for_rows))
          | inr (inl (x, b)) ↦ rw (e, for_lines) (rw (b, for_rows))
          | inr (inr b) ↦ rw (e, for_lines) (rw (b, for_rows))
        ]
        | inr (inl (x, e)) ↦ rw (e, for_lines)
        | inr (inr e) ↦ rw (e, for_lines)
      ]

  -- The loop over the iterator is the loop over the lines.
  pub for_rows-for_lines :
      (fuel : ℕ) (row : CsvRow) (t : Text) (s : S)
      → length t + 1 < fuel
      → 1 ≤ length row.m_columns
      → for_rows body fuel (increment (at row (opened t))) s
        ≡ some (for_lines body (lines_of t) row s)
  unfolding for_rows for_lines lines_pieces
  for_rows-for_lines zero row t s f h = elim f [ ]
  for_rows-for_lines (suc fuel) row t s f h = elim (Option-cases (cut b'\n' t).1) [
    | inr (after, e) ↦
        rw (increment_line row t after e, lines_from-cut t [], e)
          (for_rows_line fuel row (cut b'\n' t).0 (lines_of after) (opened after) s (λ row' s' r c.
            for_rows-for_lines fuel row' after s' (omega (arith, cut_shorter b'\n' t after e))
              (rw c h)))
    | inl e ↦ elim (Bool-cases (is_empty (cut b'\n' t).0)) [
      | inl nothing ↦
          let (it, i, f) = increment_nothing row t h e nothing in
          rw (i, lines_from-cut t []) (for_rows_stopped fuel it s f ∙ ground arith)
      | inr last ↦
          rw (increment_last row t e last, lines_from-cut t [], e, last)
            (for_rows_line fuel row (cut b'\n' t).0 [] (ended false) s
              (λ row' s' r c. for_rows-ended fuel row' s' (omega arith) r))
    ]
  ]

header_columns_some : (header : Text) → 1 ≤ length (header_columns header)
unfolding header_columns read_columns
header_columns_some header = omega arith

begin_line :
    (content after : Text)
    → (cut b'\n' content).1 ≡ some after
    → begin (opened content) true ≡ increment (at (first_row content) (opened after))
unfolding begin increment good getline
begin_line content after e = ground arith

-- A header with no newline behind it leaves the stream at its end: there is no row.
begin_header :
    (content : Text)
    → (cut b'\n' content).1 ≡ none
    → (it : CsvIterator) × (begin (opened content) true ≡ ok it) × (it.m_stream ≡ none)
unfolding begin increment good getline next set_columns succeeded
begin_header content e =
    let readable = λ (c : List Text) (h : 1 ≤ length c).
      (parse_line_total (record empty_row { m_columns = c })).0 (unfold split in h) in
    let (read, r, _, _, _) =
      readable (header_columns (cut b'\n' content).0) (header_columns_some (cut b'\n' content).0) in
    (record { m_has_header = false; m_stream = none; m_row = read }, ground arith, refl)

module _ {ℓ} {S : Type ℓ} (body : CsvRow → S → Result (CsvRow × S × Bool))
    (keeps : Keeps body) where
  -- The loop over `CSVRange(file, true)`, whose body leaves header and line of the row alone, is
  -- the loop over the lines behind the first line of the file, each once and in order, with the
  -- columns of the first line. More rounds than the file has characters are never made.
  pub for_rows-file :
      (fuel : ℕ) (content : Text) (s : S)
      → length content + 1 < fuel
      → for_rows body fuel (begin (opened content) true) s
        ≡ some (for_lines body (lines_of (body_of content)) (first_row content) s)
  unfolding for_lines lines_from set_columns
  for_rows-file zero content s f = elim f [ ]
  for_rows-file (suc fuel) content s f = elim (Option-cases (cut b'\n' content).1) [
    | inr (after, e) ↦
        let rest : body_of content ≡ after = ground arith in
        rw (begin_line content after e) (
          for_rows-for_lines body keeps (suc fuel) (first_row content) after s
            (omega (arith, cut_shorter b'\n' content after e))
            (header_columns_some (cut b'\n' content).0)
          ∙ ap (λ (x : Text). some (for_lines body (lines_of x) (first_row content) s)) (sym rest))
    | inl e ↦
        let (it, b, f) = begin_header content e in
        let rest : body_of content ≡ [] = ground arith in
        rw b (
          for_rows_stopped body keeps fuel it s f
          ∙ ap (λ (x : Text). some (for_lines body (lines_of x) (first_row content) s)) (sym rest))
  ]
