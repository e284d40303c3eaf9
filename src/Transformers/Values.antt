-- ===== src/Transformers/Values.antt =====
-- What the transformers of src/transformers do to the values of a row.
use csv_to_kafka_using_cpp.Prelude.{
  ℕ, Bool, true, false, not, List, [], ◌∷◌, map, ◌≡◌, ◌≢◌, refl, ◌∙◌, arith, ◌==◌, leb,
  if◌then◌else◌, keep_if, all, is_empty, Bool-cases, Option-cases, inl, inr,
}
use csv_to_kafka_using_cpp.Prelude.Text.{Text, assign_self, assign_ne}
use csv_to_kafka_using_cpp.Prelude.Dict.{Dict, find}
use csv_to_kafka_using_cpp.Csv.Row.{CsvRow, column, set_column}
use csv_to_kafka_using_cpp.Csv.Row.Columns.{IsAbsent}
use csv_to_kafka_using_cpp.Transformers.{
  Transformer, null, base_transformer, decorator_unuuid, decorator_map, decorator_append,
  decorator_prepend, decorator_set, to_lower, base_operation, unuuid_operation, map_operation,
  append_operation, prepend_operation, operation,
}

-- Two rows that differ in the column `name` at most.
pub record DiffersAt (name : Text) (row row' : CsvRow) : Type 0 where
  pub same_line : row'.m_line ≡ row.m_line
  pub same_fields : row'.m_fields ≡ row.m_fields
  pub same_columns : row'.m_columns ≡ row.m_columns
  pub same_others : (other : Text) → name ≢ other → column row' other ≡ column row other

DiffersAt-self : (name : Text) (row : CsvRow) → DiffersAt name row row
DiffersAt-self name row = record {
  same_line = refl;
  same_fields = refl;
  same_columns = refl;
  same_others = λ other h. refl;
}

DiffersAt-set_column :
    (name : Text) (row : CsvRow) (v : Text) → DiffersAt name row (set_column row name v)
unfolding set_column
DiffersAt-set_column name row v = record {
  same_line = refl;
  same_fields = refl;
  same_columns = refl;
  same_others = λ other h. assign_ne row.m_map_data name v other h;
}

DiffersAt-trans :
    (name : Text) (a b c : CsvRow) → DiffersAt name a b → DiffersAt name b c → DiffersAt name a c
DiffersAt-trans name a b c p q = record {
  same_line = q.same_line ∙ p.same_line;
  same_fields = q.same_fields ∙ p.same_fields;
  same_columns = q.same_columns ∙ p.same_columns;
  same_others = λ other h. q.same_others other h ∙ p.same_others other h;
}

pub base_operation-DiffersAt :
    (name : Text) (row : CsvRow) → DiffersAt name row (base_operation name row)
unfolding base_operation
base_operation-DiffersAt name row = elim (Bool-cases (is_empty (column row name))) [
  | inl e ↦ rw e (DiffersAt-self name row)
  | inr e ↦ rw e (DiffersAt-set_column name row _)
]

pub unuuid_operation-DiffersAt :
    (name : Text) (row : CsvRow) → DiffersAt name row (unuuid_operation name row)
unfolding unuuid_operation
unuuid_operation-DiffersAt name row = elim (Bool-cases (is_empty (column row name))) [
  | inl e ↦ rw e (DiffersAt-self name row)
  | inr e ↦ rw e (
      DiffersAt-trans name row _ _ (DiffersAt-set_column name row _)
        (DiffersAt-set_column name _ _))
]

pub map_operation-DiffersAt :
    (name : Text) (lookup : Dict Text) (row : CsvRow)
    → DiffersAt name row (map_operation name lookup row)
unfolding map_operation
map_operation-DiffersAt name lookup row = elim (Bool-cases (is_empty (column row name))) [
  | inl e ↦ rw e (DiffersAt-self name row)
  | inr e ↦ elim (Option-cases (find (column row name) lookup)) [
    | inl f ↦ rw e (rw f (DiffersAt-self name row))
    | inr (v, f) ↦ rw e (rw f (DiffersAt-set_column name row v))
  ]
]

pub append_operation-DiffersAt :
    (name from : Text) (row : CsvRow) → DiffersAt name row (append_operation name from row)
unfolding append_operation
append_operation-DiffersAt name from row = elim (Bool-cases (is_empty (column row name))) [
  | inl e ↦ rw e (DiffersAt-self name row)
  | inr e ↦ elim (Bool-cases (is_empty (column row from))) [
    | inl f ↦ rw e (rw f (DiffersAt-self name row))
    | inr f ↦ rw e (rw f (DiffersAt-set_column name row _))
  ]
]

pub prepend_operation-DiffersAt :
    (name from : Text) (row : CsvRow) → DiffersAt name row (prepend_operation name from row)
unfolding prepend_operation
prepend_operation-DiffersAt name from row = elim (Bool-cases (is_empty (column row name))) [
  | inl e ↦ rw e (DiffersAt-self name row)
  | inr e ↦ elim (Bool-cases (is_empty (column row from))) [
    | inl f ↦ rw e (rw f (DiffersAt-self name row))
    | inr f ↦ rw e (rw f (DiffersAt-set_column name row _))
  ]
]

-- The columns that the transformers of a chain are configured for.
abbrev pub targets : Transformer → List Text
targets null = []
targets (base_transformer c) = c ∷ []
targets (decorator_unuuid c t) = c ∷ targets t
targets (decorator_map c lookup t) = c ∷ targets t
targets (decorator_append c from t) = c ∷ targets t
targets (decorator_prepend c from t) = c ∷ targets t
targets (decorator_set c v t) = c ∷ targets t

-- Line, fields and header are as before, and so is every column outside `names`.
pub record DiffersIn (names : List Text) (row row' : CsvRow) : Type 0 where
  pub same_line : row'.m_line ≡ row.m_line
  pub same_fields : row'.m_fields ≡ row.m_fields
  pub same_columns : row'.m_columns ≡ row.m_columns
  pub same_others : (other : Text) → IsAbsent other names → column row' other ≡ column row other

DiffersIn-cons :
    (name : Text) (names : List Text) (a b c : CsvRow)
    → DiffersIn names a b
    → DiffersAt name b c
    → DiffersIn (name ∷ names) a c
DiffersIn-cons name names a b c p q = record {
  same_line = q.same_line ∙ p.same_line;
  same_fields = q.same_fields ∙ p.same_fields;
  same_columns = q.same_columns ∙ p.same_columns;
  same_others = λ other h. q.same_others other h.0 ∙ p.same_others other h.1;
}

DiffersIn-self : (row : CsvRow) → DiffersIn [] row row
DiffersIn-self row = record {
  same_line = refl;
  same_fields = refl;
  same_columns = refl;
  same_others = λ other h. refl;
}

-- A chain of transformers changes the columns that it is configured for and nothing else of a
-- row: not its line, its fields or its header, and no other column.
pub operation-DiffersIn :
    (t : Transformer) (row : CsvRow) → DiffersIn (targets t) row (operation t row)
unfolding operation
operation-DiffersIn null row = DiffersIn-self row
operation-DiffersIn (base_transformer c) row =
    DiffersIn-cons c [] row row _ (DiffersIn-self row) (base_operation-DiffersAt c row)
operation-DiffersIn (decorator_unuuid c t) row =
    DiffersIn-cons c (targets t) row _ _ (operation-DiffersIn t row)
      (unuuid_operation-DiffersAt c _)
operation-DiffersIn (decorator_map c lookup t) row =
    DiffersIn-cons c (targets t) row _ _ (operation-DiffersIn t row)
      (map_operation-DiffersAt c lookup _)
operation-DiffersIn (decorator_append c from t) row =
    DiffersIn-cons c (targets t) row _ _ (operation-DiffersIn t row)
      (append_operation-DiffersAt c from _)
operation-DiffersIn (decorator_prepend c from t) row =
    DiffersIn-cons c (targets t) row _ _ (operation-DiffersIn t row)
      (prepend_operation-DiffersAt c from _)
operation-DiffersIn (decorator_set c v t) row =
    DiffersIn-cons c (targets t) row _ _ (operation-DiffersIn t row) (DiffersAt-set_column c _ v)

-- Neither a dash nor an upper-case letter.
abbrev pub is_bare : ℕ → Bool
is_bare c = if c == b'-' then false else if leb b'A' c then not (leb c b'Z') else true

bare_lower : (t : Text) → all is_bare (map to_lower (keep_if (λ c. not (c == b'-')) t)) ≡ true
unfolding to_lower
bare_lower [] = refl
bare_lower (c ∷ cs) = ground (arith, bare_lower cs)

lower_bare : (t : Text) → all is_bare t ≡ true → map to_lower (keep_if (λ c. not (c == b'-')) t) ≡ t
unfolding to_lower
lower_bare [] h = refl
lower_bare (c ∷ cs) h = ground (arith, lower_bare cs)

unuuid_value :
    (name : Text) (row : CsvRow)
    → column (unuuid_operation name row) name
      ≡ map to_lower (keep_if (λ c. not (c == b'-')) (column row name))
unfolding unuuid_operation set_column
unuuid_value name row = elim (Bool-cases (is_empty (column row name))) [
  | inl e ↦ rw e (let e' : column row name ≡ [] = ground arith in rw e')
  | inr e ↦ rw e (assign_self _ name _ ∙ rw assign_self)
]

-- After `unuuid` the column has neither dashes nor upper-case letters, and a value that has none
-- is left as it is: doing it twice is doing it once.
unuuid_bare :
    (name : Text) (row : CsvRow)
    → (all is_bare (column (unuuid_operation name row) name) ≡ true)
      × (all is_bare (column row name) ≡ true
          → column (unuuid_operation name row) name ≡ column row name)
unuuid_bare name row = (
  rw (unuuid_value name row) (bare_lower (column row name)),
  λ h. unuuid_value name row ∙ lower_bare (column row name) h,
)
