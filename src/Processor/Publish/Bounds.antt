-- ===== src/Processor/Publish/Bounds.antt =====
-- What `CsvProcessor::publish` (src/impl/CsvProcessor.cpp) leaves alone, however it ends.
use csv_to_kafka_using_cpp.Prelude.{
  suc, ◌+◌, ◌≤◌, false, Option, none, some, List, [], ◌∷◌, ◌++◌, ◌≡◌, refl, arith, length,
}
use csv_to_kafka_using_cpp.Prelude.Text.{Text, text_eq}
use csv_to_kafka_using_cpp.Prelude.Dict.{Dict}
use csv_to_kafka_using_cpp.Prelude.Int.{ℤ, stol}
use csv_to_kafka_using_cpp.Csv.Row.{CsvRow, column}
use csv_to_kafka_using_cpp.Config.Schemas.{SchemaConfig, field_name, type_name}
use csv_to_kafka_using_cpp.Util.{create_datum_for_type}
use csv_to_kafka_using_cpp.Registry.{the_instance, register_value_schema}
use csv_to_kafka_using_cpp.Processor.Frame.{Serialized, failed, written}
use csv_to_kafka_using_cpp.Processor.State.{
  ErrorCode, no_error, queue_full, other_error, Message, Library, World, value, ◌>>=◌, pure, lift,
}
use csv_to_kafka_using_cpp.Processor.Publish.{
  is_older, is_no_id, read_clock, checked_age, too_old, register_topic, fill_record, topic_id,
  produce_retry, produce_next, send, send_serialized, publish_topic, publish_topics, publish,
}
use csv_to_kafka_using_cpp.Processor.Publish.Adds.{
  Adds, DoesAdd, Adds-none, DoesAdd->>=, DoesAdd-lift, DoesAdd-weaken, DoesAdd-if, DoesAdd-elim,
}

module _ (library : Library) where
  open library use {floats, avro, serdes, max_age_config}

  checked_age-DoesAdd : (days : ℤ) (text : Text) → DoesAdd library 0 (checked_age library days text)
  unfolding checked_age read_clock
  checked_age-DoesAdd days text =
      DoesAdd->>= library 0 0 (lift (stol text)) _ (DoesAdd-lift library (stol text)) (λ t.
        DoesAdd->>= library 0 0 (read_clock library) (λ now w. (w, is_older now t days))
          (record { adds = λ w. Adds-none library 0 w _ refl })
          (λ now. record { adds = λ w. Adds-none library 0 w _ refl }))

  too_old-DoesAdd :
      (config : Option (Text × ℤ)) (name text : Text)
      → DoesAdd library 0 (too_old library config name text)
  unfolding too_old
  too_old-DoesAdd none name text = record { adds = λ w. Adds-none library 0 w w refl }
  too_old-DoesAdd (some (max_column, days)) name text =
      DoesAdd-if library (text_eq name max_column) 0 (checked_age library days text) (pure false)
        (checked_age-DoesAdd days text) (record { adds = λ w. Adds-none library 0 w w refl })

  fill_record-DoesAdd :
      (config : SchemaConfig avro) (row : CsvRow) (columns : List Text) (datum : avro.Record)
      → DoesAdd library 0 (fill_record library config row columns datum)
  unfolding fill_record
  fill_record-DoesAdd config row [] datum = record { adds = λ w. Adds-none library 0 w w refl }
  fill_record-DoesAdd config row (field ∷ rest) datum =
      let name = field_name config.column_map field in
      DoesAdd->>= library 0 0 (too_old library max_age_config name (column row field)) _
        (too_old-DoesAdd max_age_config name (column row field))
        (λ old.
          DoesAdd-if library old 0 (λ w. (record w { old_count = w.old_count + 1 }, value none)) _
            (record { adds = λ w. Adds-none library 0 w _ refl })
            (DoesAdd->>= library 0 0
              (lift (
                create_datum_for_type floats (column row field)
                  (type_name config.column_type_transforms field)))
              (λ d. lift (avro.set_field datum name d) >>= fill_record library config row rest)
              (DoesAdd-lift library _)
              (λ d.
                DoesAdd->>= library 0 0 (lift (avro.set_field datum name d))
                  (fill_record library config row rest) (DoesAdd-lift library _)
                  (fill_record-DoesAdd config row rest))))

  register_topic-DoesAdd :
      (before rest : Dict (SchemaConfig avro)) (topic : Text) (config : SchemaConfig avro)
      → DoesAdd library 0 (register_topic library before topic config rest)
  unfolding register_topic
  register_topic-DoesAdd before rest topic config =
      DoesAdd->>= library 0 0 (λ w. lift (the_instance serdes w.registry) w) _
        (record { adds = λ w. (DoesAdd-lift library (the_instance serdes w.registry)).adds w })
        (λ registry.
          DoesAdd->>= library 0 0
            (lift (register_value_schema serdes registry topic (avro.to_json config.schema)))
            (λ id w. (
              record w { m_schemas = before ++ ((topic, record config { schema_id = id }) ∷ rest) },
              value (record config { schema_id = id }),
            ))
            (DoesAdd-lift library _) (λ id. record { adds = λ w. Adds-none library 0 w _ refl }))

  topic_id-DoesAdd :
      (before rest : Dict (SchemaConfig avro)) (topic : Text) (config : SchemaConfig avro)
      → DoesAdd library 0 (topic_id library before topic config rest)
  unfolding topic_id
  topic_id-DoesAdd before rest topic config =
      DoesAdd-if library (is_no_id config.schema_id) 0
        (register_topic library before topic config rest) (pure config)
        (register_topic-DoesAdd before rest topic config)
        (record { adds = λ w. Adds-none library 0 w w refl })

  produce_retry-Adds :
      (rs : List ErrorCode) (message : Message) (w : World library)
      → Adds library 1 w (produce_retry library rs message w).0
  unfolding produce_retry
  produce_retry-Adds [] message w = Adds-none library 1 w w refl
  produce_retry-Adds (no_error ∷ rs) message w = record {
    more = message ∷ [];
    appended = refl;
    few = omega arith;
  }
  produce_retry-Adds (queue_full ∷ rs) message w =
      let r = produce_retry-Adds rs message (record w { polls = w.polls + 1 }) in
      record { more = r.more; appended = r.appended; few = r.few }
  produce_retry-Adds (other_error ∷ rs) message w = Adds-none library 1 w w refl

  produce_next-Adds :
      (rss : List (List ErrorCode)) (message : Message) (w : World library)
      → Adds library 1 w (produce_next library rss message w).0
  unfolding produce_next
  produce_next-Adds [] message w = Adds-none library 1 w w refl
  produce_next-Adds (rs ∷ later) message w =
      let r = produce_retry-Adds rs message (record w { responses = later }) in
      record { more = r.more; appended = r.appended; few = r.few }

  send-DoesAdd : (message : Message) → DoesAdd library 1 (send library message)
  unfolding send
  send-DoesAdd message =
      DoesAdd->>= library 1 0 (λ w. produce_next library w.responses message w)
        (λ _ w. (record w { flushes = w.flushes + 1 }, value tt))
        (record { adds = λ w. produce_next-Adds w.responses message w })
        (λ _. record { adds = λ w. Adds-none library 0 w _ refl })

  send_serialized-DoesAdd :
      (topic key : Text) (s : Serialized) (out_data : Text)
      → DoesAdd library 1 (send_serialized library topic key s out_data)
  unfolding send_serialized
  send_serialized-DoesAdd topic key (failed e) out_data = record {
    adds = λ w. Adds-none library 1 w _ refl;
  }
  send_serialized-DoesAdd topic key (written n framed) out_data =
      DoesAdd->>= library 1 0 (send library (record { topic = topic; value = framed; key = key }))
        (λ _. pure framed) (send-DoesAdd _)
        (λ _. record { adds = λ w. Adds-none library 0 w w refl })

  publish_topic-DoesAdd :
      (before rest : Dict (SchemaConfig avro)) (topic : Text) (config : SchemaConfig avro)
      (row : CsvRow) (out_data : Text)
      → DoesAdd library 1 (publish_topic library before topic config rest row out_data)
  unfolding publish_topic
  publish_topic-DoesAdd before rest topic config row out_data =
      DoesAdd->>= library 0 1 _ _ (fill_record-DoesAdd config row config.columns _) λ filled.
        DoesAdd-elim library filled 1 _ _ (record { adds = λ w. Adds-none library 1 w w refl })
          λ datum. DoesAdd->>= library 0 1 _ _ (topic_id-DoesAdd before rest topic config) λ known.
            DoesAdd->>= library 1 0 _ _ (send_serialized-DoesAdd topic _ _ out_data)
              λ out. record { adds = λ w. Adds-none library 0 w w refl }

  publish_topics-DoesAdd :
      (before topics : Dict (SchemaConfig avro)) (row : CsvRow) (out_data : Text)
      → DoesAdd library (length topics) (publish_topics library before topics row out_data)
  unfolding publish_topics
  publish_topics-DoesAdd before [] row out_data = record {
    adds = λ w. Adds-none library 0 w w refl;
  }
  publish_topics-DoesAdd before ((topic, config) ∷ rest) row out_data =
      DoesAdd-weaken library (1 + length rest) (suc (length rest)) _
        (DoesAdd->>= library 1 (length rest)
          (publish_topic library before topic config rest row out_data)
          (λ out. elim out [
            | none ↦ pure tt
            | some (known, next_out) ↦
                publish_topics library (before ++ (topic, known) ∷ []) rest row next_out
          ])
          (publish_topic-DoesAdd before rest topic config row out_data)
          (λ out.
            DoesAdd-elim library out (length rest) (pure tt) _
              (record { adds = λ w. Adds-none library (length rest) w w refl })
              (λ next. publish_topics-DoesAdd (before ++ (topic, next.0) ∷ []) rest row next.1)))
        (omega arith)

  -- However `publish` ends, by an exception, a row that is too old or undefined behaviour, the
  -- messages taken before stay as they were, and at most one for each topic is appended.
  pub publish_appends :
      (row : CsvRow) (w : World library)
      → (more : List Message) × ((publish library row w).0.produced ≡ w.produced ++ more)
        × (length more ≤ length w.m_schemas)
  unfolding publish
  publish_appends row w =
      let a = (publish_topics-DoesAdd [] w.m_schemas row []).adds w in (a.more, a.appended, a.few)
