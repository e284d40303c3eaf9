-- ===== src/Csv/Row/Fields.antt =====
-- The fields of a line, and the columns that get them: what `CSVRow::next` (src/csv/CSVRow.cpp) is to
-- compute, with no indices.
use csv_to_kafka_using_cpp.Prelude.{
  ℕ, List, [], ◌∷◌, ◌++◌, ◌≡◌, refl, ◌⊎◌, inl, inr, ◌==◌, if◌then◌else◌,
}
use csv_to_kafka_using_cpp.Prelude.Text.{Text, assign}
use csv_to_kafka_using_cpp.Prelude.Result.{Result, ok, undefined, ◌>>=◌}
use csv_to_kafka_using_cpp.Csv.Row.{
  CsvState, unquoted_field, quoted_field, quoted_quote, CsvRow, strip_line,
}

-- What one character does to the field under construction.
pub data Action : Type 0 where
  close : Action
  become : CsvState → Action
  put : ℕ → CsvState → Action

pub Action-cases :
    (a : Action)
    → (a ≡ close) ⊎ (((r : CsvState) × (a ≡ become r)) ⊎ ((d : ℕ) × (r : CsvState) × (a ≡ put d r)))
Action-cases close = inl refl
Action-cases (become r) = inr (inl (r, refl))
Action-cases (put d r) = inr (inr (d, r, refl))

unfoldable pub action : CsvState → ℕ → Action
action unquoted_field c =
    if c == b',' then close else if c == b'"' then become quoted_field else put c unquoted_field
action quoted_field c = if c == b'"' then become quoted_quote else put c quoted_field
action quoted_quote c =
    if c == b',' then close else if c == b'"' then put b'"' quoted_field else become unquoted_field

-- The fields of a line, from a state and the part of the field that is read.
unfoldable pub split : CsvState → Text → Text → List Text
split q field [] = field ∷ []
split q field (c ∷ cs) = elim (action q c) [
  | close ↦ field ∷ split unquoted_field [] cs
  | become r ↦ split r field cs
  | put d r ↦ split r (field ++ d ∷ []) cs
]

-- The fields of a whole line.
abbrev pub fields_of : Text → List Text
fields_of line = split unquoted_field [] (strip_line line)

-- Each field goes to its column; a field with no column is undefined behaviour.
unfoldable pub store_columns : List Text → List Text → (Text → Text) → Result (Text → Text)
store_columns columns [] m = ok m
store_columns [] (f ∷ fs) m = undefined
store_columns (name ∷ columns) (f ∷ fs) m = store_columns columns fs (assign m name f)

abbrev pub with_contents : CsvRow → List Text → Result (Text → Text) → Result CsvRow
with_contents row fields r = r >>= λ m. ok (record row { m_fields = fields; m_map_data = m })
