-- ===== src/Transformers.antt =====
-- src/transformers: the base transformer, the decorators and the factory.
pub mod Values
pub mod Chain
use csv_to_kafka_using_cpp.Prelude.{
  ℕ, ◌+◌, Bool, true, false, not, Option, none, some, List, [], ◌∷◌, ◌++◌, map, ◌==◌, leb,
  if◌then◌else◌, keep_if, is_empty,
}
use csv_to_kafka_using_cpp.Prelude.Text.{Text, codes, text_eq}
use csv_to_kafka_using_cpp.Prelude.Dict.{Dict, find}
use csv_to_kafka_using_cpp.Csv.Row.{CsvRow, column, set_column}

-- `std::unique_ptr<AbstractTransformer>`: the null pointer, or one of the classes with its
-- members. A decorator holds such a pointer to what it wraps, `m_transformer`.
pub data Transformer : Type 0 where
  null : Transformer
  base_transformer : Text → Transformer
  decorator_unuuid : Text → Transformer → Transformer
  decorator_map : Text → Dict Text → Transformer → Transformer
  decorator_append decorator_prepend decorator_set : Text → Text → Transformer → Transformer

-- `std::tolower` in the "C" locale.
unfoldable pub to_lower : ℕ → ℕ
to_lower c = if leb b'A' c then (if leb c b'Z' then c + 32 else c) else c

-- The `Operation` of each class, behind the call of the wrapped transformer.
unfoldable pub base_operation : Text → CsvRow → CsvRow
base_operation m_column row =
    if is_empty (column row m_column)
    then row
    else set_column row m_column (codes "BASE " ++ column row m_column)

unfoldable pub unuuid_operation : Text → CsvRow → CsvRow
unfolding to_lower
unuuid_operation m_column row =
    if is_empty (column row m_column)
    then row
    else (let erased =
          set_column row m_column (keep_if (λ c. not (c == b'-')) (column row m_column)) in
        set_column erased m_column (map to_lower (column erased m_column)))

unfoldable pub map_operation : Text → Dict Text → CsvRow → CsvRow
map_operation m_column lookup row =
    if is_empty (column row m_column) then row else elim (find (column row m_column) lookup) [
      | none ↦ row
      | some value ↦ set_column row m_column value
    ]

unfoldable pub append_operation : Text → Text → CsvRow → CsvRow
append_operation m_column from_column row =
    if is_empty (column row m_column)
    then row
    else if is_empty (column row from_column)
    then row
    else set_column row m_column (column row m_column ++ column row from_column)

unfoldable pub prepend_operation : Text → Text → CsvRow → CsvRow
prepend_operation m_column m_from_column row =
    if is_empty (column row m_column)
    then row
    else if is_empty (column row m_from_column)
    then row
    else set_column row m_column (column row m_from_column ++ column row m_column)

-- `Operation`: a decorator first delegates to the transformer that it wraps, if there is one.
unfoldable pub operation : Transformer → CsvRow → CsvRow
operation null row = row
operation (base_transformer m_column) row = base_operation m_column row
operation (decorator_unuuid m_column m_transformer) row =
    unuuid_operation m_column (operation m_transformer row)
operation (decorator_map m_column lookup m_transformer) row =
    map_operation m_column lookup (operation m_transformer row)
operation (decorator_append m_column from_column m_transformer) row =
    append_operation m_column from_column (operation m_transformer row)
operation (decorator_prepend m_column m_from_column m_transformer) row =
    prepend_operation m_column m_from_column (operation m_transformer row)
operation (decorator_set m_column m_value m_transformer) row =
    set_column (operation m_transformer row) m_column m_value

-- The loop of `CsvProcessor::handle` over the vector of transformers.
unfoldable pub operations : List Transformer → CsvRow → CsvRow
unfolding operation
operations [] row = row
operations (t ∷ ts) row = operations ts (operation t row)

-- The registered names, each with `create_T` of its class: a decorator wraps the pointer that it
-- is given, and `BaseTransformer` drops it. New decorators have empty members.
abbrev Creator : Type 0
Creator = Text → Transformer → Transformer

abbrev registered : Dict Creator
registered =
    (codes "append", λ column wrapped. decorator_append column [] wrapped)
    ∷ (codes "map", λ column wrapped. decorator_map column [] wrapped)
    ∷ (codes "prepend", λ column wrapped. decorator_prepend column [] wrapped)
    ∷ (codes "set", λ column wrapped. decorator_set column [] wrapped)
    ∷ (codes "unuuid", λ column wrapped. decorator_unuuid column wrapped)
    ∷ (codes "void", λ column wrapped. base_transformer column)
    ∷ []

-- `Factory::get_instance`: the null pointer for a name that is not registered.
unfoldable pub get_instance : Text → Text → Transformer → Transformer
unfolding find text_eq
get_instance s column wrapped = elim (find s registered) [
  | none ↦ null
  | some create ↦ create column wrapped
]
