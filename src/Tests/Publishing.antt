-- ===== src/Tests/Publishing.antt =====
-- `CsvProcessor::publish` (src/impl/CsvProcessor.cpp) with two topics.
use csv_to_kafka_using_cpp.Prelude.{
  ◌+◌, ◌*◌, ◌≤◌, false, none, some, List, [], ◌∷◌, ◌++◌, ◌≡◌, refl, length,
}
use csv_to_kafka_using_cpp.Prelude.Text.{Text, codes, text_eq, assign}
use csv_to_kafka_using_cpp.Prelude.Dict.{find}
use csv_to_kafka_using_cpp.Prelude.Int.{ℤ, pos, stol}
use csv_to_kafka_using_cpp.Csv.Row.{CsvRow}
use csv_to_kafka_using_cpp.Util.{string_datum, drop, create_datum_for_type}
use csv_to_kafka_using_cpp.Config.Schemas.{SchemaConfig, field_name, type_name, string_schema}
use csv_to_kafka_using_cpp.Processor.Frame.{written, serialize, read_frame, serialize-read_frame}
use csv_to_kafka_using_cpp.Processor.State.{Library, Message, World, value}
use csv_to_kafka_using_cpp.Processor.Publish.{is_older, publish}
use csv_to_kafka_using_cpp.Processor.Publish.Messages.{
  full_then_taken, frame, Sends, sends, stops, no_more, taken, Publishes, publish_messages,
}
use csv_to_kafka_using_cpp.Processor.Publish.Filling.{
  row_old, filled, stopped, Fills, no_columns, fills, aged as stops_aged, unchecked, young, old,
}
use csv_to_kafka_using_cpp.Processor.Publish.Bounds.{publish_appends}
use csv_to_kafka_using_cpp.Tests.Instances.{avro, library}

abbrev pub config : Text → ℤ → SchemaConfig avro
config name id = record {
  name = name;
  key_column = codes "id";
  columns = codes "name" ∷ [];
  column_map = [];
  column_type_transforms = [];
  schema = (codes "name", string_schema) ∷ [];
  schema_id = id;
}

-- A row with these values, read from a line with these fields.
abbrev pub row_with : Text → List Text → List Text → CsvRow
row_with line fields columns = record {
  m_line = line;
  m_fields = fields;
  m_data = [];
  m_columns = columns;
  m_map_data = assign (assign (λ _. []) (codes "id") (codes "7")) (codes "name") (codes "x");
}

abbrev row : CsvRow
row = row_with [] [] []

abbrev pub world : World library
world = record {
  m_schemas =
      (codes "a", config (codes "a") (pos 1)) ∷ (codes "b", config (codes "b") (pos 2)) ∷ [];
  registry = none;
  responses = full_then_taken 2 [] ∷ full_then_taken 0 [] ∷ [];
  produced = [];
  polls = 0;
  flushes = 0;
  readings = 0;
  old_count = 0;
  interrupted = false;
}

-- The same topics with an age of at most 20000 days in the column `id`, and a clock that goes on by more
-- than 1000 days between two readings.
abbrev aged : Library
aged = record library {
  time = λ n. pos (1700000000 + n * 100000000);
  max_age_config = some (codes "id", pos 20000);
}

abbrev aged_config : Text → ℤ → SchemaConfig avro
aged_config name id = record (config name id) { columns = codes "id" ∷ codes "name" ∷ [] }

abbrev aged_world : World aged
aged_world = record {
  m_schemas =
      (codes "a", aged_config (codes "a") (pos 1))
      ∷ (codes "b", aged_config (codes "b") (pos 2))
      ∷ [];
  registry = none;
  responses = full_then_taken 2 [] ∷ [];
  produced = [];
  polls = 0;
  flushes = 0;
  readings = 0;
  old_count = 0;
  interrupted = false;
}

abbrev aged_messages : List Message
aged_messages =
    record { topic = codes "a"; value = frame (pos 1) (codes "7x"); key = codes "7" } ∷ []

name_filled :
    Fills aged
      (aged_config (codes "a") (pos 1))
      row
      (codes "name" ∷ [])
      ((codes "id", string_datum (codes "7")) ∷ [])
      1
      (filled
        ((codes "id", string_datum (codes "7")) ∷ (codes "name", string_datum (codes "x")) ∷ []))
      1
unfolding field_name type_name create_datum_for_type assign text_eq find
name_filled = fills _ (unchecked refl) refl refl no_columns

-- The first topic finds the row young enough.
first_filled :
    Fills aged
      (aged_config (codes "a") (pos 1))
      row
      (codes "id" ∷ codes "name" ∷ [])
      []
      0
      (filled
        ((codes "id", string_datum (codes "7")) ∷ (codes "name", string_datum (codes "x")) ∷ []))
      1
unfolding field_name type_name create_datum_for_type assign text_eq find stol is_older
first_filled =
    fills _ (young (codes "id") (pos 20000) (pos 7) refl refl refl refl) refl refl name_filled

-- The second finds it too old.
second_stopped :
    Fills aged
      (aged_config (codes "b") (pos 2))
      row
      (codes "id" ∷ codes "name" ∷ [])
      []
      1
      (stopped row_old)
      2
unfolding field_name assign text_eq find stol is_older
second_stopped = stops_aged (old (codes "id") (pos 20000) (pos 7) refl refl refl refl)

row-Sends : Sends aged row [] aged_world.m_schemas 0 aged_messages (some row_old) 2
unfolding assign text_eq
row-Sends = sends _ (codes "7x") first_filled refl refl (stops second_stopped)

publish_messages_example :
    (w' : World aged) × (publish aged row aged_world ≡ (w', value tt))
    × Publishes aged aged_world w' aged_messages 1 2 []
publish_messages_example = publish_messages aged row aged_world row-Sends (taken 2 [] no_more)

publish_appends_example :
    (more : List Message) × ((publish library row world).0.produced ≡ world.produced ++ more)
    × (length more ≤ length world.m_schemas)
publish_appends_example = publish_appends library row world

serialize-read_frame_example :
    (framed : Text) × (serialize avro []
        (pos 258)
        ((codes "name", string_datum (codes "x")) ∷ [])
        (codes "before")
      ≡ written (length (codes "before") + 5 + length (codes "x")) framed)
    × (read_frame (drop (length (codes "before")) framed) ≡ some (pos 258, codes "x"))
serialize-read_frame_example =
    serialize-read_frame avro [] (pos 258) ((codes "name", string_datum (codes "x")) ∷ [])
      (codes "before") (codes "x") refl refl
