-- ===== src/Tests/Records.antt =====
-- A record of `publish` (src/impl/CsvProcessor.cpp) with the schema of its topic.
use csv_to_kafka_using_cpp.Prelude.{false, some, List, [], ◌∷◌, ◌++◌, ◌≡◌, refl}
use csv_to_kafka_using_cpp.Prelude.Text.{Text, codes, text_eq, assign}
use csv_to_kafka_using_cpp.Prelude.Dict.{find}
use csv_to_kafka_using_cpp.Prelude.Int.{pos}
use csv_to_kafka_using_cpp.Prelude.Result.{ok}
use csv_to_kafka_using_cpp.Csv.Row.{CsvRow, empty_row}
use csv_to_kafka_using_cpp.Util.{Datum, string_datum, create_datum_for_type}
use csv_to_kafka_using_cpp.Registry.{SchemaRegistry, fetch_value_schema_id}
use csv_to_kafka_using_cpp.Config.Schemas.{
  AvroType, SchemaConfig, string_schema, field_name, type_name, field_schema, record_fields,
  assemble_schema, with_schemas,
}
use csv_to_kafka_using_cpp.Processor.State.{value}
use csv_to_kafka_using_cpp.Processor.Publish.{too_old, fill_record}
use csv_to_kafka_using_cpp.Processor.Publish.Typed.{set_fields, HaveTypes, fill_record-HaveTypes}
use csv_to_kafka_using_cpp.Tests.Instances.{floats, avro, serdes, library}
use csv_to_kafka_using_cpp.Tests.Publishing.{config, world}

abbrev registry : SchemaRegistry serdes
registry = record { m_uninitialized = false; m_serdes = some (codes "host"); interrupted = false }

-- The second column has another name in the schema, and a type name that is not one of the others.
abbrev read_config : SchemaConfig avro
read_config = record (config (codes "a") (pos 0)) {
  columns = codes "name" ∷ codes "id" ∷ [];
  column_map = (codes "id", codes "key") ∷ [];
  column_type_transforms = (codes "id", codes "string") ∷ [];
  schema = [];
}

abbrev known_config : SchemaConfig avro
known_config = record read_config {
  schema = (codes "name", string_schema) ∷ (codes "key", string_schema) ∷ [];
  schema_id = pos 7;
}

known :
    with_schemas avro serdes registry ((codes "a", read_config) ∷ [])
    ≡ ok ((codes "a", known_config) ∷ [])
unfolding with_schemas assemble_schema record_fields field_name type_name field_schema
    fetch_value_schema_id find text_eq
known = refl

found : find (codes "a") ((codes "a", known_config) ∷ []) ≡ some known_config
unfolding find text_eq
found = refl

abbrev row : CsvRow
row = record empty_row {
  m_map_data = assign (assign (λ _. []) (codes "id") (codes "7")) (codes "name") (codes "x");
}

filled : fill_record library known_config row known_config.columns [] world ≡ (
  world,
  value (
      some
        ((codes "name", string_datum (codes "x")) ∷ (codes "key", string_datum (codes "7")) ∷ [])),
)
unfolding fill_record too_old field_name type_name create_datum_for_type assign text_eq find
filled = refl

fill_record-HaveTypes_example :
    (fields : List (Text × Datum floats)) × (types : List (Text × AvroType)) × (avro.compile
        (known_config.name ++ codes "_msg")
        types
      ≡ ok known_config.schema)
    × (set_fields library [] fields
        ≡ ok (
            (codes "name", string_datum (codes "x"))
            ∷ (codes "key", string_datum (codes "7"))
            ∷ []))
    × HaveTypes library fields types
fill_record-HaveTypes_example =
    fill_record-HaveTypes library registry ((codes "a", read_config) ∷ [])
      ((codes "a", known_config) ∷ []) (codes "a") known_config row world world _ known found filled
