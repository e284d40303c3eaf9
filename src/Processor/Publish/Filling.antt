-- ===== src/Processor/Publish/Filling.antt =====
-- How the loop of `CsvProcessor::publish` (src/impl/CsvProcessor.cpp) over the columns of a topic ends,
-- with the age of the row checked where the configuration asks for it.
use csv_to_kafka_using_cpp.Prelude.{
  ℕ, ◌+◌, Bool, true, false, Option, none, some, List, [], ◌∷◌, ◌≡◌, refl, ap, ◌∙◌,
}
use csv_to_kafka_using_cpp.Prelude.Text.{Text, text_eq}
use csv_to_kafka_using_cpp.Prelude.Result.{Exception, ok, throws}
use csv_to_kafka_using_cpp.Prelude.Int.{ℤ, stol}
use csv_to_kafka_using_cpp.Csv.Row.{CsvRow, column}
use csv_to_kafka_using_cpp.Util.{create_datum_for_type}
use csv_to_kafka_using_cpp.Config.Schemas.{SchemaConfig, field_name, type_name}
use csv_to_kafka_using_cpp.Processor.State.{Library, World, Outcome, value, raised}
use csv_to_kafka_using_cpp.Processor.Publish.{is_older, checked_age, too_old, fill_record}

-- Why a row gets no message for a topic: it is too old, or something throws.
pub data Stop : Type 0 where
  row_old : Stop
  throwing : Exception → Stop

-- Whether the age is checked for the field with this name.
abbrev pub is_checked : Option (Text × ℤ) → Text → Bool
is_checked none name = false
is_checked (some (max_column, days)) name = text_eq name max_column

module _ (library : Library) where
  open library use {floats, avro, time, max_age_config}

  -- A field that does not make the row too old, between two readings of the clock: its age is not
  -- checked, or the next reading finds it young enough.
  pub data Young (name text : Text) : ℕ → ℕ → Type 0 where
    unchecked : {k : ℕ} → is_checked max_age_config name ≡ false → Young name text k k
    young :
        {k : ℕ} (max_column : Text) (days event_timestamp : ℤ)
        → max_age_config ≡ some (max_column, days)
        → text_eq name max_column ≡ true
        → stol text ≡ ok event_timestamp
        → is_older (time k) event_timestamp days ≡ value false
        → Young name text k (k + 1)

  -- A field that stops the row by its age: it is too old, or it is no number.
  pub data Aged (name text : Text) : ℕ → Stop → ℕ → Type 0 where
    old :
        {k : ℕ} (max_column : Text) (days event_timestamp : ℤ)
        → max_age_config ≡ some (max_column, days)
        → text_eq name max_column ≡ true
        → stol text ≡ ok event_timestamp
        → is_older (time k) event_timestamp days ≡ value true
        → Aged name text k row_old (k + 1)
    no_number :
        {k : ℕ} (max_column : Text) (days : ℤ) (e : Exception)
        → max_age_config ≡ some (max_column, days)
        → text_eq name max_column ≡ true
        → stol text ≡ throws e
        → Aged name text k (throwing e) k

  pub data Filled : Type 0 where
    filled : avro.Record → Filled
    stopped : Stop → Filled

  -- The columns from some on fill the record, or the first that cannot be taken stops the row. The
  -- numbers are the readings of the clock before and behind.
  pub data Fills (config : SchemaConfig avro) (row : CsvRow)
      : List Text → avro.Record → ℕ → Filled → ℕ → Type 0 where
    no_columns : {datum : avro.Record} {k : ℕ} → Fills config row [] datum k (filled datum) k
    fills :
        {field : Text} {rest : List Text} {datum : avro.Record} {k l m : ℕ} {end : Filled} {d : _}
        (next : avro.Record)
        → Young (field_name config.column_map field) (column row field) k l
        → create_datum_for_type floats
            (column row field)
            (type_name config.column_type_transforms field)
          ≡ ok d
        → avro.set_field datum (field_name config.column_map field) d ≡ ok next
        → Fills config row rest next l end m
        → Fills config row (field ∷ rest) datum k end m
    aged :
        {field : Text} {rest : List Text} {datum : avro.Record} {k l : ℕ} {s : Stop}
        → Aged (field_name config.column_map field) (column row field) k s l
        → Fills config row (field ∷ rest) datum k (stopped s) l
    no_datum :
        {field : Text} {rest : List Text} {datum : avro.Record} {k l : ℕ} {e : Exception}
        → Young (field_name config.column_map field) (column row field) k l
        → create_datum_for_type floats
            (column row field)
            (type_name config.column_type_transforms field)
          ≡ throws e
        → Fills config row (field ∷ rest) datum k (stopped (throwing e)) l
    not_set :
        {field : Text} {rest : List Text} {datum : avro.Record} {k l : ℕ} {e : Exception} {d : _}
        → Young (field_name config.column_map field) (column row field) k l
        → create_datum_for_type floats
            (column row field)
            (type_name config.column_type_transforms field)
          ≡ ok d
        → avro.set_field datum (field_name config.column_map field) d ≡ throws e
        → Fills config row (field ∷ rest) datum k (stopped (throwing e)) l

  -- The state with some readings of the clock.
  abbrev pub read_at : World library → ℕ → World library
  read_at w k = record w { readings = k }

  -- The state and the outcome where a row is stopped.
  abbrev pub stop_with : {A : Type 0} → A → Stop → World library → World library × Outcome A
  stop_with a row_old w = (record w { old_count = w.old_count + 1 }, value a)
  stop_with a (throwing e) w = (w, raised e)

  abbrev pub fill_with : Filled → World library → World library × Outcome (Option avro.Record)
  fill_with (filled datum) w = (w, value (some datum))
  fill_with (stopped s) w = stop_with none s w

  not_checked :
      (c : Option (Text × ℤ)) (name text : Text) (w : World library)
      → is_checked c name ≡ false
      → too_old library c name text w ≡ (w, value false)
  unfolding too_old
  not_checked none name text w h = refl
  not_checked (some (max_column, days)) name text w h = rw h refl

  age_checked :
      (max_column name text : Text) (days event_timestamp : ℤ) (b : Bool) (k : ℕ)
      (w : World library)
      → max_age_config ≡ some (max_column, days)
      → text_eq name max_column ≡ true
      → stol text ≡ ok event_timestamp
      → is_older (time k) event_timestamp days ≡ value b
      → too_old library max_age_config name text (read_at w k) ≡ (read_at w (k + 1), value b)
  unfolding too_old checked_age
  age_checked max_column name text days event_timestamp b k w c n s o =
      ap (λ x. too_old library x name text (read_at w k)) c ∙ rw n (rw s (rw o refl))

  too_old-Young :
      {name text : Text} {k l : ℕ} (w : World library)
      → Young name text k l
      → too_old library max_age_config name text (read_at w k) ≡ (read_at w l, value false)
  too_old-Young {name} {text} {k} w (unchecked h) =
      not_checked max_age_config name text (read_at w k) h
  too_old-Young {name} {text} {k} w (young max_column days event_timestamp c n s o) =
      age_checked max_column name text days event_timestamp false k w c n s o

  no_number_raises :
      (max_column name text : Text) (days : ℤ) (e : Exception) (w : World library)
      → max_age_config ≡ some (max_column, days)
      → text_eq name max_column ≡ true
      → stol text ≡ throws e
      → too_old library max_age_config name text w ≡ (w, raised e)
  unfolding too_old checked_age
  no_number_raises max_column name text days e w c n s =
      ap (λ x. too_old library x name text w) c ∙ rw n (rw s refl)

  -- The loop over the columns does what `Fills` says, from every state.
  pub fill_record-Fills :
      {config : SchemaConfig avro} {row : CsvRow} {fields : List Text} {datum : avro.Record}
      {k l : ℕ} {end : Filled} (w : World library)
      → Fills config row fields datum k end l
      → fill_record library config row fields datum (read_at w k) ≡ fill_with end (read_at w l)
  unfolding fill_record
  fill_record-Fills w no_columns = refl
  fill_record-Fills w (fills next y d s f) =
      rw (too_old-Young w y) (rw d (rw s (fill_record-Fills w f)))
  fill_record-Fills {k} w (aged (old max_column days event_timestamp c n s o)) =
      rw (age_checked max_column _ _ days event_timestamp true k w c n s o) refl
  fill_record-Fills {k} w (aged (no_number max_column days e c n s)) =
      rw (no_number_raises max_column _ _ days e (read_at w k) c n s) refl
  fill_record-Fills w (no_datum y d) = rw (too_old-Young w y) (rw d refl)
  fill_record-Fills w (not_set y d s) = rw (too_old-Young w y) (rw d (rw s refl))
