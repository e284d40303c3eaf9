-- ===== src/Csv/Row/Split.antt =====
-- `CSVRow::next` (src/csv/CSVRow.cpp) computes the fields of a line.
use csv_to_kafka_using_cpp.Prelude.{
  ℕ, ◌≤◌, ◌<◌, none, List, [], ◌∷◌, ◌++◌, ◌≡◌, refl, arith, ◌⊎◌, inl, inr, get_elem?, length,
  append_assoc, length-append, get_elem?-append, set-append,
}
use csv_to_kafka_using_cpp.Prelude.Text.{Text, assign}
use csv_to_kafka_using_cpp.Prelude.Result.{ok, undefined, ◌>>=◌}
use csv_to_kafka_using_cpp.Csv.Row.{
  CsvState, unquoted_field, quoted_field, quoted_quote, CsvRow, Scan, strip_line, set_column,
  store_field, push_char, end_field, step_in, scan, parse_line,
}
use csv_to_kafka_using_cpp.Csv.Row.Fields.{
  close, become, put, Action-cases, action, split, fields_of, store_columns, with_contents,
}

-- The states of the loop: `done` are the finished fields, which went to the columns `used`.
abbrev inside : CsvRow → CsvState → List Text → Text → List Text → List Text → (Text → Text) → Scan
inside row q done field used columns m = record {
  state = q;
  i = length done;
  row = record row { m_fields = done ++ field ∷ []; m_columns = used ++ columns; m_map_data = m };
}

get_elem?_end : (xs : List Text) → get_elem? (xs ++ []) (length xs) ≡ none
get_elem?_end [] = refl
get_elem?_end (x ∷ xs) = get_elem?_end xs

module _ (row : CsvRow) (q : CsvState) (done : List Text) (field : Text) (used : List Text) where
  push_char-inside :
      (columns : List Text) (m : Text → Text) (c : ℕ)
      → push_char (inside row q done field used columns m) c
        ≡ ok (inside row q done (field ++ c ∷ []) used columns m)
  unfolding push_char
  push_char-inside columns m c =
      ground (arith, get_elem?-append done [] field, set-append done [] field (field ++ c ∷ []))

  store_field_full :
      (m : Text → Text)
      → length used ≡ length done
      → store_field (inside row q done field used [] m) ≡ undefined
  unfolding store_field
  store_field_full m e = ground (arith, get_elem?_end used)

  store_field-inside :
      (name : Text) (columns : List Text) (m : Text → Text)
      → length used ≡ length done
      → store_field (inside row q done field used (name ∷ columns) m)
        ≡ ok (set_column (inside row q done field used (name ∷ columns) m).row name field)
  unfolding store_field
  store_field-inside name columns m e =
      ground (arith, get_elem?-append done [] field, get_elem?-append used columns name)

  end_field-inside :
      (name : Text) (columns : List Text) (m : Text → Text)
      → length used ≡ length done
      → end_field (inside row q done field used (name ∷ columns) m)
        ≡ ok (
            inside row unquoted_field
              (done ++ field ∷ [])
              []
              (used ++ name ∷ [])
              columns
              (assign m name field))
  unfolding end_field set_column
  end_field-inside name columns m e = ground (
    arith,
    store_field-inside name columns m e,
    append_assoc used (name ∷ []) columns,
    length-append done (field ∷ []),
  )

  end_field_full :
      (m : Text → Text)
      → length used ≡ length done
      → end_field (inside row q done field used [] m) ≡ undefined
  unfolding end_field
  end_field_full m e = rw (store_field_full m e)

-- One character, in every state.
step_in-inside :
    (row : CsvRow) (q : CsvState) (done : List Text) (field : Text) (used columns : List Text)
    (m : Text → Text) (c : ℕ)
    → step_in q (inside row q done field used columns m) c ≡ (elim (action q c) [
      | close ↦ end_field (inside row q done field used columns m)
      | become r ↦ ok (inside row r done field used columns m)
      | put d r ↦ ok (inside row r done (field ++ d ∷ []) used columns m)
    ])
unfolding step_in action
step_in-inside row unquoted_field done field used columns m c =
    ground (arith, push_char-inside row unquoted_field done field used columns m c)
step_in-inside row quoted_field done field used columns m c =
    ground (arith, push_char-inside row quoted_field done field used columns m c)
step_in-inside row quoted_quote done field used columns m c =
    ground (arith, push_char-inside row quoted_quote done field used columns m b'"')

-- What `scan` and the last field do with the rest of a line.
abbrev Splits :
    CsvRow → CsvState → List Text → Text → List Text → List Text → (Text → Text) → Text → Type 0
Splits row q done field used columns m line =
    (scan (inside row q done field used columns m) line >>= store_field)
    ≡ with_contents (record row { m_columns = used ++ columns }) (done ++ split q field line)
        (store_columns columns (split q field line) m)

split_end :
    (row : CsvRow) (q : CsvState) (done : List Text) (field : Text) (used columns : List Text)
    (m : Text → Text)
    → length used ≡ length done
    → Splits row q done field used columns m []
unfolding split store_columns scan set_column
split_end row q done field used [] m e = store_field_full row q done field used m e
split_end row q done field used (name ∷ columns) m e =
    store_field-inside row q done field used name columns m e

-- A character that does not end the field, before a rest that splits in any state.
split_inside :
    (row : CsvRow) (q : CsvState) (done : List Text) (field : Text) (used columns : List Text)
    (m : Text → Text) (c : ℕ) (cs : Text)
    → ((r : CsvState) (f : Text) → Splits row r done f used columns m cs)
    → ((r : CsvState) × (action q c ≡ become r))
      ⊎ ((d : ℕ) × (r : CsvState) × (action q c ≡ put d r))
    → Splits row q done field used columns m (c ∷ cs)
unfolding split store_columns scan
split_inside row q done field used columns m c cs next (inl (r, h)) =
    ground (arith, step_in-inside row q done field used columns m c, next r field)
split_inside row q done field used columns m c cs next (inr (d, r, h)) =
    ground (arith, step_in-inside row q done field used columns m c, next r (field ++ d ∷ []))

-- A character that ends the field, before a rest that splits with the next column.
split_close :
    (row : CsvRow) (q : CsvState) (done : List Text) (field : Text) (used columns : List Text)
    (m : Text → Text) (c : ℕ) (cs : Text)
    → length used ≡ length done
    → ((name : Text) (later : List Text)
        → columns ≡ name ∷ later
        → Splits row unquoted_field
            (done ++ field ∷ [])
            []
            (used ++ name ∷ [])
            later
            (assign m name field)
            cs)
    → action q c ≡ close
    → Splits row q done field used columns m (c ∷ cs)
unfolding split store_columns scan
split_close row q done field used [] m c cs e next h =
    ground
      (arith, step_in-inside row q done field used [] m c, end_field_full row q done field used m e)
split_close row q done field used (name ∷ columns) m c cs e next h = ground (
  arith,
  step_in-inside row q done field used (name ∷ columns) m c,
  end_field-inside row q done field used name columns m e,
  next name columns refl,
  append_assoc done (field ∷ []) (split unquoted_field [] cs),
  append_assoc used (name ∷ []) columns,
)

split_from :
    (row : CsvRow) (q : CsvState) (done : List Text) (field : Text) (used columns : List Text)
    (m : Text → Text) (line : Text)
    → length used ≡ length done
    → Splits row q done field used columns m line
split_from row q done field used columns m [] e = split_end row q done field used columns m e
split_from row q done field used columns m (c ∷ cs) e = elim (Action-cases (action q c)) [
  | inl h ↦
      split_close row q done field used columns m c cs e
        (λ name later same.
          split_from row unquoted_field (done ++ field ∷ []) [] (used ++ name ∷ []) later
            (assign m name field) cs
            (omega (arith, length-append used (name ∷ []), length-append done (field ∷ []), e)))
        h
  | inr h ↦
      split_inside row q done field used columns m c cs
        (λ r f. split_from row r done f used columns m cs e) h
]

-- `next` behind the `getline` stores the fields of the line in the columns of the header, from
-- the first on. It is undefined behaviour exactly if there are more fields than columns.
pub parse_line-split :
    (row : CsvRow)
    → parse_line row
      ≡ with_contents
          (record row { m_line = strip_line row.m_line })
          (fields_of row.m_line)
          (store_columns row.m_columns (fields_of row.m_line) row.m_map_data)
unfolding parse_line
parse_line-split row =
    split_from (record row { m_line = strip_line row.m_line }) unquoted_field [] [] [] row.m_columns
      row.m_map_data (strip_line row.m_line) refl

pub store_columns-defined :
    (columns fields : List Text) (m : Text → Text)
    → length fields ≤ length columns
    → (m' : Text → Text) × (store_columns columns fields m ≡ ok m')
unfolding store_columns
store_columns-defined columns [] m h = (m, refl)
store_columns-defined [] (f ∷ fs) m h = elim h [ ]
store_columns-defined (name ∷ columns) (f ∷ fs) m h =
    store_columns-defined columns fs (assign m name f) (omega arith)

pub store_columns-undefined :
    (columns fields : List Text) (m : Text → Text)
    → length columns < length fields
    → store_columns columns fields m ≡ undefined
unfolding store_columns
store_columns-undefined columns [] m h = elim h [ ]
store_columns-undefined [] (f ∷ fs) m h = refl
store_columns-undefined (name ∷ columns) (f ∷ fs) m h =
    store_columns-undefined columns fs (assign m name f) (omega arith)
