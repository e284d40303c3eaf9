-- ===== src/Processor/Publish/Typed.antt =====
-- The records of `CsvProcessor::publish` (src/impl/CsvProcessor.cpp) against the schemas of
-- `ConfigParser::assemble_schema` (src/config/ConfigParser.cpp).
use csv_to_kafka_using_cpp.Prelude.{
  Bool-cases, inl, inr, Bool, true, false, Option, none, some, List, [], ◌∷◌, ◌++◌, ◌≡◌, refl, ap,
  ◌∙◌, subst, arith, if◌then◌else◌,
}
use csv_to_kafka_using_cpp.Prelude.Text.{Text, codes, text_eq}
use csv_to_kafka_using_cpp.Prelude.Result.{>>=-eq-ok, Result, ok, throws, undefined, ◌>>=◌}
use csv_to_kafka_using_cpp.Prelude.Dict.{Dict, find}
use csv_to_kafka_using_cpp.Registry.{SchemaRegistry, fetch_value_schema_id}
use csv_to_kafka_using_cpp.Csv.Row.{CsvRow, column}
use csv_to_kafka_using_cpp.Util.{Datum, create_datum_for_type}
use csv_to_kafka_using_cpp.Config.Schemas.{
  AvroType, SchemaConfig, field_name, type_name, record_fields, assemble_schema, with_schemas,
}
use csv_to_kafka_using_cpp.Config.Schemas.Types.{datum_schema, datum-field_schema}
use csv_to_kafka_using_cpp.Processor.State.{
  Library, World, Outcome, value, raised, crashed, waiting, M, continue, lift,
}
use csv_to_kafka_using_cpp.Processor.Publish.{too_old, fill_record}

module _ {S A B : Type 0} where
  continue-eq-value :
      (r : S × Outcome A) (f : A → M S B) {s' : S} {b : B}
      → continue r f ≡ (s', value b)
      → (s : S) × (a : A) × (r ≡ (s, value a)) × (f a s ≡ (s', value b))
  continue-eq-value (s, value a) f h = (s, a, refl, h)
  continue-eq-value (s, raised e) f h = cc
  continue-eq-value (s, crashed) f h = cc
  continue-eq-value (s, waiting) f h = cc

lift-eq-value : {S A : Type 0} (r : Result A) (s t : S) (a : A) → lift r s ≡ (t, value a) → r ≡ ok a
lift-eq-value (ok x) s t a h = cc
lift-eq-value (throws e) s t a h = cc
lift-eq-value undefined s t a h = cc

-- A row that was not dropped was kept.
not_dropped :
    {S R : Type 0} (old : Bool) (count : S → S) (kept : M S (Option R)) {s s' : S} {r : R}
    → (if old then (λ w. (count w, value none)) else kept) s ≡ (s', value (some r))
    → kept s ≡ (s', value (some r))
not_dropped true count kept h = cc
not_dropped false count kept h = h

-- What holds of the first value and of those found behind it holds of what is found.
find_in_cons :
    {V : Type 0} (P : V → Type 0) (name topic : Text) (v : V) (more : Dict V) (found : V)
    → P v
    → (find topic more ≡ some found → P found)
    → find topic ((name, v) ∷ more) ≡ some found
    → P found
unfolding find
find_in_cons P name topic v more found here later h = elim (Bool-cases (text_eq name topic)) [
  | inl e ↦ let same : v ≡ found = ground arith in subst P same here
  | inr e ↦ later (ground arith)
]

module _ (library : Library) where
  open library use {floats, avro, serdes, max_age_config}

  -- The calls of `setFieldAt`, one after the other.
  pub set_fields : avro.Record → List (Text × Datum floats) → Result avro.Record
  set_fields datum [] = ok datum
  set_fields datum ((name, d) ∷ fields) =
      avro.set_field datum name d >>= λ filled. set_fields filled fields

  -- The fields have the names of the schema's fields, in their order, and values of their types.
  pub data HaveTypes : List (Text × Datum floats) → List (Text × AvroType) → Type 0 where
    no_fields : HaveTypes [] []
    typed_field :
        {fields : List (Text × Datum floats)} {types : List (Text × AvroType)} (name : Text)
        (d : Datum floats)
        → HaveTypes fields types
        → HaveTypes ((name, d) ∷ fields) ((name, datum_schema floats d) ∷ types)

  -- The body of the loop for a column that is not too old.
  fill_field :
      (config : SchemaConfig avro) (row : CsvRow) (field : Text) (rest : List Text)
      (datum : avro.Record) (w w' : World library) (r : avro.Record)
      → fill_record library config row (field ∷ rest) datum w ≡ (w', value (some r))
      → (v : World library) × (d : Datum floats) × (filled : avro.Record) × (create_datum_for_type
            floats
            (column row field)
            (type_name config.column_type_transforms field)
          ≡ ok d)
        × (avro.set_field datum (field_name config.column_map field) d ≡ ok filled)
        × (fill_record library config row rest filled v ≡ (w', value (some r)))
  unfolding fill_record
  fill_field config row field rest datum w w' r h =
      let (s, old, _, after_age) =
        continue-eq-value
          (too_old library max_age_config (field_name config.column_map field) (column row field) w)
          _ h in
      let made =
        create_datum_for_type floats (column row field)
          (type_name config.column_type_transforms field) in
      let (t, d, lifted, after_datum) =
        continue-eq-value (lift made s) _ (not_dropped old _ _ after_age) in
      let (v, filled, set, later) =
        continue-eq-value (lift (avro.set_field datum (field_name config.column_map field) d) t) _
          after_datum in
      (v, d, filled, lift-eq-value made s t d lifted, lift-eq-value _ t v filled set, later)

  -- A column's field, with those of the columns behind it.
  record Typed (datum : avro.Record) (types : List (Text × AvroType)) (r : avro.Record)
      : Type 0 where
    pub fields : List (Text × Datum floats)
    pub all_set : set_fields datum fields ≡ ok r
    pub typed : HaveTypes fields types

  fill_record-Typed :
      (config : SchemaConfig avro) (row : CsvRow) (columns : List Text) (datum : avro.Record)
      (w w' : World library) (r : avro.Record)
      → fill_record library config row columns datum w ≡ (w', value (some r))
      → Typed datum (record_fields avro config columns) r
  unfolding record_fields set_fields fill_record
  fill_record-Typed config row [] datum w w' r h =
      let same : ok datum ≡ ok r = cc in record { fields = []; all_set = same; typed = no_fields }
  fill_record-Typed config row (field ∷ rest) datum w w' r h =
      let (v, d, filled, made, set, later) = fill_field config row field rest datum w w' r h in
      let more = fill_record-Typed config row rest filled v w' r later in
      record {
        fields = (field_name config.column_map field, d) ∷ more.fields;
        all_set = rw set more.all_set;
        typed =
            subst
              (λ (t : AvroType).
                HaveTypes ((field_name config.column_map field, d) ∷ more.fields)
                  ((field_name config.column_map field, t) ∷ record_fields avro config rest))
              ((datum-field_schema floats (column row field)
                  (type_name config.column_type_transforms field)).0
                d made)
              (typed_field (field_name config.column_map field) d more.typed);
      }

  -- The schema of a configuration from `schemas` is the one assembled for it.
  with_schemas-assemble_schema :
      (registry : SchemaRegistry serdes) (configs known : Dict (SchemaConfig avro)) (topic : Text)
      (config : SchemaConfig avro)
      → with_schemas avro serdes registry configs ≡ ok known
      → find topic known ≡ some config
      → assemble_schema avro config ≡ ok config.schema
  unfolding with_schemas assemble_schema find
  with_schemas-assemble_schema registry [] known topic config h f = cc
  with_schemas-assemble_schema registry ((name, c) ∷ configs) known topic config h f =
      let (id, _, h') = >>=-eq-ok (fetch_value_schema_id serdes registry name) _ h in
      let (schema, assembled, h'') = >>=-eq-ok (assemble_schema avro c) _ h' in
      let (more, later, last) = >>=-eq-ok (with_schemas avro serdes registry configs) _ h'' in
      let new : SchemaConfig avro = record c { schema = schema; schema_id = id } in
      let same : (name, new) ∷ more ≡ known = cc in
      find_in_cons (λ (x : SchemaConfig avro). assemble_schema avro x ≡ ok x.schema) name topic new
        more config assembled
        (λ there. with_schemas-assemble_schema registry configs more topic config later there)
        (ap (find topic) same ∙ f)

  -- What a topic of `schemas` fills in for a row, where no column is refused or too old, fits the
  -- schema of the topic: the record is the empty one with a field set for each column, in order,
  -- the names are those of the schema's fields, and each value is of the type that the schema
  -- declares for its field. This holds for every Avro library.
  pub fill_record-HaveTypes :
      (registry : SchemaRegistry serdes) (configs known : Dict (SchemaConfig avro)) (topic : Text)
      (config : SchemaConfig avro) (row : CsvRow) (w w' : World library) (r : avro.Record)
      → with_schemas avro serdes registry configs ≡ ok known
      → find topic known ≡ some config
      → fill_record library config row config.columns (avro.new_record config.schema) w
        ≡ (w', value (some r))
      → (fields : List (Text × Datum floats)) × (types : List (Text × AvroType)) × (avro.compile
            (config.name ++ codes "_msg")
            types
          ≡ ok config.schema)
        × (set_fields (avro.new_record config.schema) fields ≡ ok r)
        × HaveTypes fields types
  unfolding assemble_schema
  fill_record-HaveTypes registry configs known topic config row w w' r h f filled =
      let t =
        fill_record-Typed config row config.columns (avro.new_record config.schema) w w' r filled in
      (
        t.fields,
        record_fields avro config config.columns,
        with_schemas-assemble_schema registry configs known topic config h f,
        t.all_set,
        t.typed,
      )
