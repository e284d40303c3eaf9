-- ===== src/Csv/Row/Columns.antt =====
-- What the columns of a `CSVRow` hold after a line (src/csv/CSVRow.cpp, `next`).
use csv_to_kafka_using_cpp.Prelude.{
  ℕ, zero, suc, ◌≤◌, ◌<◌, ◌≢◌, some, List, [], ◌∷◌, ◌≡◌, refl, sym, ap, ◌∙◌, subst, arith,
  get_elem?, get_or, length,
}
use csv_to_kafka_using_cpp.Prelude.Text.{Text, assign, assign_self, assign_ne}
use csv_to_kafka_using_cpp.Prelude.Result.{ok, undefined, >>=-eq-ok}
use csv_to_kafka_using_cpp.Csv.Row.{CsvRow, strip_line, column, parse_line}
use csv_to_kafka_using_cpp.Csv.Row.Split.{
  parse_line-split, store_columns-defined, store_columns-undefined,
}
use csv_to_kafka_using_cpp.Csv.Row.Fields.{fields_of, store_columns}

-- No name in the list is `name`.
abbrev pub IsAbsent : Text → List Text → Type 0
IsAbsent name [] = Unit
IsAbsent name (c ∷ cs) = (c ≢ name) × IsAbsent name cs

-- A header names every column once.
abbrev pub IsDistinct : List Text → Type 0
IsDistinct [] = Unit
IsDistinct (c ∷ cs) = IsAbsent c cs × IsDistinct cs

absent_ne :
    (name other : Text) (cs : List Text) (i : ℕ)
    → IsAbsent name cs
    → get_elem? cs i ≡ some other
    → name ≢ other
absent_ne name other [] i a g e = cc
absent_ne name other (c ∷ cs) zero a g e = a.0 (ground arith)
absent_ne name other (c ∷ cs) (suc i) a g e = absent_ne name other cs i a.1 g e

store_columns_absent :
    (columns fields : List Text) (m m' : Text → Text) (name : Text)
    → IsAbsent name columns
    → store_columns columns fields m ≡ ok m'
    → m' name ≡ m name
unfolding store_columns
store_columns_absent columns [] m m' name a e = ground arith
store_columns_absent [] (f ∷ fs) m m' name a e = cc
store_columns_absent (c ∷ cs) (f ∷ fs) m m' name a e =
    store_columns_absent cs fs (assign m c f) m' name a.1 e ∙ assign_ne m c f name a.0

store_columns_get :
    (columns fields : List Text) (m m' : Text → Text) (i : ℕ) (name : Text)
    → IsDistinct columns
    → get_elem? columns i ≡ some name
    → store_columns columns fields m ≡ ok m'
    → m' name ≡ get_or fields i (m name)
unfolding store_columns
store_columns_get columns [] m m' i name d g e = ground arith
store_columns_get [] (f ∷ fs) m m' i name d g e = cc
store_columns_get (c ∷ cs) (f ∷ fs) m m' zero name d g e =
    let same : c ≡ name = cc in
    store_columns_absent cs fs (assign m c f) m' name (subst (λ k. IsAbsent k cs) same d.0) e
    ∙ rw (← same) (assign_self m c f)
store_columns_get (c ∷ cs) (f ∷ fs) m m' (suc i) name d g e =
    store_columns_get cs fs (assign m c f) m' i name d.1 g e
    ∙ ap (get_or fs i) (assign_ne m c f name (absent_ne c name cs i d.0 g))

-- After `next`, the column that the header names at place `i` holds the line's field at place `i`.
-- Where the line has fewer fields it still holds what it held before, from an earlier line.
pub parse_line-column :
    (row row' : CsvRow) (i : ℕ) (name : Text)
    → IsDistinct row.m_columns
    → get_elem? row.m_columns i ≡ some name
    → parse_line row ≡ ok row'
    → column row' name ≡ get_or (fields_of row.m_line) i (column row name)
parse_line-column row row' i name d g e =
    let (m', s, k) =
      >>=-eq-ok (store_columns row.m_columns (fields_of row.m_line) row.m_map_data) _
        (sym (parse_line-split row) ∙ e) in
    ground
      (arith, store_columns_get row.m_columns (fields_of row.m_line) row.m_map_data m' i name d g s)

-- `next` is defined for every line with no more fields than the header has columns, and then it
-- keeps the fields in order, the header, and the line without its line ends. It is undefined behaviour for every other line.
pub parse_line_total :
    (row : CsvRow)
    → (length (fields_of row.m_line) ≤ length row.m_columns
        → (row' : CsvRow) × (parse_line row ≡ ok row')
          × (row'.m_fields ≡ fields_of row.m_line)
          × (row'.m_columns ≡ row.m_columns)
          × (row'.m_line ≡ strip_line row.m_line))
      × (length row.m_columns < length (fields_of row.m_line) → parse_line row ≡ undefined)
parse_line_total row = (
  λ h.
      let (m', e) = store_columns-defined row.m_columns (fields_of row.m_line) row.m_map_data h in
      (
        record row {
          m_line = strip_line row.m_line;
          m_fields = fields_of row.m_line;
          m_map_data = m';
        },
        ground (arith, parse_line-split row),
        refl,
        refl,
        refl,
      ),
  λ h. ground (
    arith,
    parse_line-split row,
    store_columns-undefined row.m_columns (fields_of row.m_line) row.m_map_data,
  ),
)
