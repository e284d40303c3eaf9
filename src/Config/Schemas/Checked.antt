-- ===== src/Config/Schemas/Checked.antt =====
-- What `ConfigParser::schema_configs` (src/config/ConfigParser.cpp) checks before it returns.
use csv_to_kafka_using_cpp.Prelude.{
  true, List, [], ◌∷◌, ◌++◌, ◌≡◌, ◌≢◌, refl, arith, if◌then◌else◌, Bool-cases, inl, inr, is_empty,
}
use mathlib.Core.List.{concat-ne-nil}
use csv_to_kafka_using_cpp.Prelude.Text.{Text, codes}
use csv_to_kafka_using_cpp.Prelude.Dict.{Dict, AllValues, insert-AllValues}
use csv_to_kafka_using_cpp.Prelude.Result.{Result, ok, >>=-eq-ok, Result-cases}
use csv_to_kafka_using_cpp.Util.{Floats}
use csv_to_kafka_using_cpp.Config.{
  Yaml, has_key, is_map, kafka, column_map, column_type_transforms_map,
}
use csv_to_kafka_using_cpp.Config.Schemas.{
  Avro, SchemaConfig, read_key_column, read_topic, read_columns, read_topics, checked_configs,
  schema_configs,
}

module _ {floats : Floats} (avro : Avro floats) where
  -- Named after its topic, and with a column to send.
  pub record IsUsable (topic : Text) (config : SchemaConfig avro) : Type 0 where
    pub named : config.name ≡ topic
    pub has_columns : config.columns ≢ []

  abbrev topic_message : Text → Text
  topic_message topic = codes "No columns found for topic '" ++ topic ++ codes "'"

  last_checked :
      (key_column : Text) (err : List Text) (message : Text) (columns : List Text)
      (r : Text × List Text × List Text)
      → ◌≡◌ {A = Result (Text × List Text × List Text)}
          (ok (key_column, columns, (if is_empty columns then err ++ message ∷ [] else err)))
          (ok r)
      → r.2 ≡ []
      → (err ≡ []) × (r.1 ≢ [])
  last_checked key_column err message [] r e n = absurd (concat-ne-nil message err (ground arith))
  last_checked key_column err message (c ∷ cs) r e n = (ground arith, λ z. ground arith)

  module _ (yaml : Yaml) where
    open yaml use {Node, child, entries}

    read_key_column_checked :
        (value : Node) (topic : Text) (err : List Text) (r : Text × List Text)
        → read_key_column avro yaml value topic err ≡ ok r
        → r.1 ≡ []
        → err ≡ []
    unfolding read_key_column
    read_key_column_checked value topic err r e n = ground (
      arith,
      concat-ne-nil (codes "Missing key_column for topic '" ++ topic ++ codes "'") err,
      Result-cases (yaml.as_string (child value (codes "key_column"))),
    )

    read_topic_map :
        (value : Node) (topic : Text) (err : List Text) (r : Text × List Text × List Text)
        → is_map (yaml.node_type value) ≡ true
        → read_topic avro yaml value topic err ≡ ok r
        → r.2 ≡ []
        → (err ≡ []) × (r.1 ≢ [])
    unfolding read_topic
    read_topic_map value topic err r m e n =
        let (k, ek, rest) = >>=-eq-ok (read_key_column avro yaml value topic err) _ (rw m at e) in
        let (cs, ec, last) =
          >>=-eq-ok (read_columns avro yaml (yaml.elements (child value (codes "columns")))) _
            rest in
        let (kept, columns) = last_checked k.0 k.1 (topic_message topic) cs r last n in
        (read_key_column_checked value topic err k ek kept, columns)

    -- No message is ever taken back, and a topic without columns adds one.
    read_topic_checked :
        (value : Node) (topic key_column : Text) (err columns err' : List Text)
        → read_topic avro yaml value topic err ≡ ok (key_column, columns, err')
        → err' ≡ []
        → (err ≡ []) × (columns ≢ [])
    unfolding read_topic
    read_topic_checked value topic key_column err columns err' e n =
        elim (Bool-cases (is_map (yaml.node_type value))) [
          | inl m ↦ read_topic_map value topic err (key_column, columns, err') m e n
          | inr m ↦ absurd (
              concat-ne-nil (codes "Value for key '" ++ topic ++ codes "' should be of type map!")
                err (ground arith))
        ]

    read_topics_checked :
        (m_config : Node) (es : List (Node × Node)) (err err' : List Text)
        (before after : Dict (SchemaConfig avro))
        → read_topics avro yaml m_config es err before ≡ ok (err', after)
        → err' ≡ []
        → (err ≡ []) × (AllValues IsUsable before → AllValues IsUsable after)
    unfolding read_topics
    read_topics_checked m_config [] err err' before after e n =
        (ground arith, λ h. let same : before ≡ after = ground arith in rw same at h)
    read_topics_checked m_config ((key, value) ∷ es) err err' before after e n =
        let (cm, e1, r1) = >>=-eq-ok (column_map yaml m_config) _ e in
        let (ctt, e2, r2) = >>=-eq-ok (column_type_transforms_map yaml m_config) _ r1 in
        let (topic, e3, r3) = >>=-eq-ok (yaml.as_string key) _ r2 in
        let (t, e4, r4) = >>=-eq-ok (read_topic avro yaml value topic err) _ r3 in
        let (none_yet, later) = read_topics_checked m_config es t.2 err' _ after r4 n in
        let (none_before, columns) = read_topic_checked value topic t.0 err t.1 t.2 e4 none_yet in
        (
          none_before,
          λ h. later (
              insert-AllValues IsUsable topic _ (record { named = refl; has_columns = columns })
                before h),
        )

    abbrev topics_read : Node → Result (List Text × Dict (SchemaConfig avro))
    topics_read m_config =
        if has_key yaml m_config (codes "type_map")
        then read_topics avro yaml m_config (entries (child m_config (codes "type_map"))) [] []
        else ok (codes "No schema configuration found" ∷ [], [])

    checked_configs_lem :
        (r : List Text × Dict (SchemaConfig avro)) (configs : Dict (SchemaConfig avro))
        → checked_configs avro yaml r ≡ ok configs
        → (r.0 ≡ []) × (r.1 ≡ configs)
    unfolding checked_configs
    checked_configs_lem ([], result) configs e = (refl, ground arith)
    checked_configs_lem (m ∷ err, result) configs e = cc

    topics_read-IsUsable :
        (m_config : Node) (r : List Text × Dict (SchemaConfig avro))
        (configs : Dict (SchemaConfig avro))
        → topics_read m_config ≡ ok r
        → r.0 ≡ []
        → r.1 ≡ configs
        → (has_key yaml m_config (codes "type_map") ≡ true) × AllValues IsUsable configs
    topics_read-IsUsable m_config r configs e n same =
        elim (Bool-cases (has_key yaml m_config (codes "type_map"))) [
          | inl h ↦
              let (_, usable) =
                read_topics_checked m_config (entries (child m_config (codes "type_map"))) [] r.0 []
                  r.1 (rw h at e) n in
              (h, rw (← same) (usable tt))
          | inr h ↦
              let none : ok (codes "No schema configuration found" ∷ [], []) ≡ ok r = rw h at e in
              absurd (ground arith)
        ]

    -- Whatever `schema_configs` returns is usable: `type_map` is there, and every topic has its own
    -- name and at least one column. A configuration that fails one of these returns nothing.
    pub schema_configs_checked :
        (m_config : Node) (configs : Dict (SchemaConfig avro))
        → schema_configs avro yaml m_config ≡ ok configs
        → (has_key yaml m_config (codes "type_map") ≡ true) × AllValues IsUsable configs
    unfolding schema_configs
    schema_configs_checked m_config configs e =
        let (k, e1, r1) = >>=-eq-ok (kafka yaml m_config) _ e in
        let (read, e2, r2) = >>=-eq-ok (topics_read m_config) _ r1 in
        let (none_left, same) = checked_configs_lem read configs r2 in
        topics_read-IsUsable m_config read configs e2 none_left same
