-- ===== src/Tests/Configuration.antt =====
-- The configuration, the transformers and the registry at concrete inputs.
use csv_to_kafka_using_cpp.Prelude.{true, false, none, some, List, [], ◌∷◌, ◌≡◌, refl, is_empty}
use csv_to_kafka_using_cpp.Prelude.Text.{Text, codes, text_eq, assign}
use csv_to_kafka_using_cpp.Prelude.Dict.{Dict, find, insert, AllValues}
use csv_to_kafka_using_cpp.Prelude.Int.{pos}
use csv_to_kafka_using_cpp.Prelude.Result.{ok, throws, undefined, std_exception}
use csv_to_kafka_using_cpp.Csv.Row.{CsvRow, empty_row}
use csv_to_kafka_using_cpp.Util.{Datum, create_datum_for_type}
use csv_to_kafka_using_cpp.Registry.{SchemaRegistry, init, the_instance, fetch_value_schema_id}
use csv_to_kafka_using_cpp.Registry.Singleton.{not_yet, by_init, the_instance_never_throws}
use csv_to_kafka_using_cpp.Transformers.{Transformer, null, decorator_unuuid, operation, operations}
use csv_to_kafka_using_cpp.Transformers.Values.{DiffersIn, operation-DiffersIn}
use csv_to_kafka_using_cpp.Transformers.Chain.{
  Transformation, unuuid_of, append_of, chain, kept, transform_all, operation-chain,
}
use csv_to_kafka_using_cpp.Config.{max_age, has_key, is_defined, config_for_key}
use csv_to_kafka_using_cpp.Config.Maps.{done, read, config_for_key-ReadsAs, age_of, max_age-ReadsAs}
use csv_to_kafka_using_cpp.Config.Transforms.{transformers}
use csv_to_kafka_using_cpp.Config.Transforms.Chained.{
  unuuid_element, append_element, no_element, element, transformers-transform_all,
}
use csv_to_kafka_using_cpp.Config.Schemas.{
  SchemaConfig, schema_configs, field_schema, string_schema,
}
use csv_to_kafka_using_cpp.Config.Schemas.Types.{is_known, datum_schema, datum-field_schema}
use csv_to_kafka_using_cpp.Config.Schemas.Checked.{IsUsable, schema_configs_checked}
use csv_to_kafka_using_cpp.Tests.Instances.{
  floats, avro, serdes, Tree, scalar, sequence, mapping, no_items, yaml, entry, member,
}

abbrev unuuid_id : Tree
unuuid_id = mapping (
    entry (codes "column") (scalar (codes "id"))
      (entry (codes "type") (scalar (codes "unuuid")) no_items))

abbrev append_name : Tree
append_name = mapping (
    entry (codes "column") (scalar (codes "id")) (
      entry (codes "type") (scalar (codes "append"))
        (entry (codes "from_column") (scalar (codes "name")) no_items)))

abbrev document : Tree
document = mapping (
    entry (codes "transforms") (sequence (member unuuid_id (member append_name no_items))) (
      entry (codes "kafka") (mapping (entry (codes "client.id") (scalar (codes "me")) no_items)) (
        entry (codes "column_map") (mapping no_items) (
          entry (codes "column_type_transforms") (mapping no_items) (
            entry (codes "type_map")
              (mapping (
                entry (codes "users")
                  (mapping (
                    entry (codes "key_column") (scalar (codes "id")) (
                      entry (codes "columns") (sequence (member (scalar (codes "id")) no_items))
                        no_items)))
                  no_items))
              no_items)))))

abbrev steps : List Transformation
steps = unuuid_of (codes "id") ∷ append_of (codes "id") (codes "name") ∷ []

transformers-transform_all_example :
    (v : List Transformer) × (transformers yaml document ≡ ok (v, false))
    × ((row : CsvRow) → operations v row ≡ transform_all (kept [] steps) row)
unfolding is_defined text_eq
transformers-transform_all_example =
    transformers-transform_all yaml document steps refl
      (element (unuuid_element refl refl) (element (append_element refl refl refl) no_element))

abbrev row : CsvRow
row = record empty_row { m_map_data = assign (λ _. []) (codes "id") (codes "A-1") }

operation-chain_example : operation (chain null steps) row ≡ transform_all (kept [] steps) row
operation-chain_example = operation-chain steps row

operation-DiffersIn_example :
    DiffersIn (codes "id" ∷ []) row (operation (decorator_unuuid (codes "id") null) row)
operation-DiffersIn_example = operation-DiffersIn (decorator_unuuid (codes "id") null) row

abbrev users : SchemaConfig avro
users = record {
  name = codes "users";
  key_column = codes "id";
  columns = codes "id" ∷ [];
  column_map = [];
  column_type_transforms = [];
  schema = [];
  schema_id = pos 0;
}

schemas_read : schema_configs avro yaml document ≡ ok ((codes "users", users) ∷ [])
unfolding schema_configs config_for_key text_eq insert
schemas_read = refl

schema_configs_checked_example :
    (has_key yaml document (codes "type_map") ≡ true)
    × AllValues (IsUsable avro) ((codes "users", users) ∷ [])
schema_configs_checked_example =
    schema_configs_checked avro yaml document ((codes "users", users) ∷ []) schemas_read

datum-field_schema_example :
    ((d : Datum floats)
      → create_datum_for_type floats (codes "x") (codes "text") ≡ ok d
      → datum_schema floats d ≡ field_schema (codes "text"))
    × (is_known (codes "text") ≡ false
        → (field_schema (codes "text") ≡ string_schema)
          × (create_datum_for_type floats (codes "x") (codes "text")
              ≡ throws (std_exception (codes "Unknown datum type"))))
datum-field_schema_example = datum-field_schema floats (codes "x") (codes "text")

config_for_key-ReadsAs_example :
    (result : Dict Text) × (config_for_key yaml document (codes "kafka") ≡ ok result)
    × ((name : Text) → find name result ≡ find name ((codes "client.id", codes "me") ∷ []))
unfolding is_defined text_eq
config_for_key-ReadsAs_example =
    config_for_key-ReadsAs yaml document (codes "kafka") ((codes "client.id", codes "me") ∷ [])
      (unfold has_key in refl) refl (read refl refl refl done)

abbrev aged : Tree
aged = mapping (
    entry (codes "max_age")
      (mapping (
        entry (codes "column") (scalar (codes "ts"))
          (entry (codes "days") (scalar (codes "30")) no_items)))
      no_items)

max_age-ReadsAs_example :
    max_age yaml aged
    ≡ age_of
        (find (codes "column") ((codes "column", codes "ts") ∷ (codes "days", codes "30") ∷ []))
        (find (codes "days") ((codes "column", codes "ts") ∷ (codes "days", codes "30") ∷ []))
unfolding is_defined text_eq has_key
max_age-ReadsAs_example =
    max_age-ReadsAs yaml aged ((codes "column", codes "ts") ∷ (codes "days", codes "30") ∷ []) refl
      refl (read refl refl refl (read refl refl refl done))

the_instance_never_throws_example :
    (i : SchemaRegistry serdes) × (the_instance serdes (some (init serdes none (codes "host")))
      ≡ ok i)
    × (some (init serdes none (codes "host")) ≡ none
        → (schema_name : Text) → is_empty schema_name ≡ false
        → fetch_value_schema_id serdes i schema_name ≡ undefined)
the_instance_never_throws_example =
    the_instance_never_throws serdes (by_init (codes "host") not_yet)
