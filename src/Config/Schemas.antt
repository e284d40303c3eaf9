-- ===== src/Config/Schemas.antt =====
-- The schemas of `ConfigParser` (src/config/ConfigParser.cpp, src/config/SchemaConfig.h), over an
-- abstract Avro library.
pub mod Types
pub mod Checked
use csv_to_kafka_using_cpp.Prelude.{
  ℕ, Bool, true, false, not, Option, none, some, List, [], ◌∷◌, ◌++◌, map, if◌then◌else◌, is_empty,
}
use csv_to_kafka_using_cpp.Prelude.Text.{Text, codes, text_eq}
use csv_to_kafka_using_cpp.Prelude.Dict.{Dict, find, insert}
use csv_to_kafka_using_cpp.Prelude.Result.{Result, ok, throws, undefined, ◌>>=◌}
use csv_to_kafka_using_cpp.Prelude.Int.{ℤ, pos}
use csv_to_kafka_using_cpp.Util.{Floats, Datum}
use csv_to_kafka_using_cpp.Registry.{Serdes, SchemaRegistry, fetch_value_schema_id}
use csv_to_kafka_using_cpp.Config.{
  Yaml, is_map, is_defined, has_key, config_for_key, column_map, column_type_transforms_map, kafka,
}

-- The schemas of the fields of a record: `avro::StringSchema` and so on.
pub data AvroType : Type 0 where
  string_schema float_schema double_schema int_schema long_schema : AvroType

-- `avro::encode`: the bytes that it writes, or the text of the `avro::Exception` that it throws.
pub data Encoded : Type 0 where
  encoded refused : Text → Encoded

-- What the program uses of Avro.
pub record Avro (floats : Floats) : Type 1 where
  pub ValidSchema : Type 0
  -- `avro::ValidSchema()`
  pub no_schema : ValidSchema
  -- `avro::ValidSchema` of a `RecordSchema` with this name and these fields.
  pub compile : Text → List (Text × AvroType) → Result ValidSchema
  pub to_json : ValidSchema → Text
  -- `avro::GenericRecord`
  pub Record : Type 0
  pub new_record : ValidSchema → Record
  -- `setFieldAt(fieldIndex(name), datum)`
  pub set_field : Record → Text → Datum floats → Result Record
  -- `avro::encode` with a validating encoder for the schema.
  pub encode : ValidSchema → Record → Encoded

module _ {floats : Floats} (avro : Avro floats) where
  open avro use {ValidSchema}

  pub record SchemaConfig : Type 0 where
    pub name : Text
    pub key_column : Text
    pub columns : List Text
    pub column_map : Dict Text
    pub column_type_transforms : Dict Text
    pub schema : ValidSchema
    pub schema_id : ℤ

-- The name of the Avro field for a column: its entry in `column_map`, or its own name.
unfoldable pub field_name : Dict Text → Text → Text
field_name column_map field = elim (find field column_map) [ some name ↦ name | none ↦ field ]

-- The type for a column: its entry in `column_type_transforms`, or "string".
unfoldable pub type_name : Dict Text → Text → Text
type_name column_type_transforms field = elim (find field column_type_transforms) [
  | some type ↦ type
  | none ↦ codes "string"
]

unfoldable pub field_schema : Text → AvroType
field_schema type =
    if text_eq type (codes "float")
    then float_schema
    else if text_eq type (codes "double")
    then double_schema
    else if text_eq type (codes "int")
    then int_schema
    else if text_eq type (codes "long")
    then long_schema
    else string_schema

module _ {floats : Floats} (avro : Avro floats) where
  open avro use {ValidSchema, no_schema, compile}

  -- The calls of `addField`, in order.
  unfoldable pub record_fields : SchemaConfig avro → List Text → List (Text × AvroType)
  unfolding field_name type_name field_schema
  record_fields config [] = []
  record_fields config (field ∷ rest) =
      (
        field_name config.column_map field,
        field_schema (type_name config.column_type_transforms field),
      )
      ∷ record_fields config rest

  unfoldable pub assemble_schema : SchemaConfig avro → Result ValidSchema
  unfolding record_fields
  assemble_schema config =
      compile (config.name ++ codes "_msg") (record_fields config config.columns)

  module _ (yaml : Yaml) where
    open yaml use {Node, node_type, child, entries, elements, as_string}

    unfoldable pub read_columns : List Node → Result (List Text)
    read_columns [] = ok []
    read_columns (c ∷ cs) = do column ← as_string c; rest ← read_columns cs; ok (column ∷ rest)

    -- The key column of a topic, and the messages with a new one if it is missing.
    read_key_column : Node → Text → List Text → Result (Text × List Text)
    read_key_column value topic err =
        if is_defined (node_type (child value (codes "key_column")))
        then (as_string (child value (codes "key_column")) >>= λ k. ok (k, err))
        else ok ([], err ++ (codes "Missing key_column for topic '" ++ topic ++ codes "'") ∷ [])

    -- The `if` on the node type of a topic.
    unfoldable pub read_topic : Node → Text → List Text → Result (Text × List Text × List Text)
    unfolding read_key_column read_columns is_defined
    read_topic value topic err =
        if is_map (node_type value)
        then (do
          (key_column, err') ← read_key_column value topic err
          columns ← read_columns (elements (child value (codes "columns")))
          ok (
            key_column,
            columns,
            (if is_empty columns
                then err' ++ (codes "No columns found for topic '" ++ topic ++ codes "'") ∷ []
                else err'),
          ))
        else ok (
          [],
          [],
          err ++ (codes "Value for key '" ++ topic ++ codes "' should be of type map!") ∷ [],
        )

    -- The loop over `type_map`.
    unfoldable pub read_topics :
        Node
        → List (Node × Node)
        → List Text
        → Dict (SchemaConfig avro)
        → Result (List Text × Dict (SchemaConfig avro))
    unfolding read_topic
    read_topics m_config [] err result = ok (err, result)
    read_topics m_config ((key, value) ∷ rest) err result = do
      cm ← column_map yaml m_config
      ctt ← column_type_transforms_map yaml m_config
      topic ← as_string key
      (key_column, columns, err') ← read_topic value topic err
      read_topics m_config rest err' (
          insert topic
            (record {
              name = topic;
              key_column = key_column;
              columns = columns;
              column_map = cm;
              column_type_transforms = ctt;
              schema = no_schema;
              schema_id = pos 0;
            })
            result)

    -- With messages collected the function sends SIGINT and runs off its end.
    checked_configs : List Text × Dict (SchemaConfig avro) → Result (Dict (SchemaConfig avro))
    checked_configs ([], result) = ok result
    checked_configs (e ∷ err, result) = undefined

    -- `schema_configs`, behind the call of `SchemaRegistry::init`.
    unfoldable pub schema_configs : Node → Result (Dict (SchemaConfig avro))
    unfolding has_key read_topics checked_configs
    schema_configs m_config = do
      kafka_config ← kafka yaml m_config
      read ←
          (if has_key yaml m_config (codes "type_map")
            then read_topics m_config (entries (child m_config (codes "type_map"))) [] []
            else ok (codes "No schema configuration found" ∷ [], []))
      checked_configs read

  module _ (serdes : Serdes) (registry : SchemaRegistry serdes) where
    -- The loop of `schemas`: each configuration gets its id and its schema.
    unfoldable pub with_schemas : Dict (SchemaConfig avro) → Result (Dict (SchemaConfig avro))
    unfolding assemble_schema
    with_schemas [] = ok []
    with_schemas ((topic, config) ∷ rest) = do
      id ← fetch_value_schema_id serdes registry topic
      schema ← assemble_schema config
      more ← with_schemas rest
      ok ((topic, record config { schema_id = id; schema = schema }) ∷ more)

    unfoldable pub schemas : (yaml : Yaml) → yaml.Node → Result (Dict (SchemaConfig avro))
    unfolding schema_configs with_schemas
    schemas yaml m_config = do configs ← schema_configs yaml m_config; with_schemas configs
