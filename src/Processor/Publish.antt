-- ===== src/Processor/Publish.antt =====
-- `CsvProcessor::publish` (src/impl/CsvProcessor.cpp): a row as one message for each topic.
pub mod Filling
pub mod Messages
pub mod Adds
pub mod Bounds
pub mod Typed
use csv_to_kafka_using_cpp.Prelude.{
  ℕ, zero, suc, ◌+◌, ◌*◌, Bool, true, false, not, Option, none, some, List, [], ◌∷◌, ◌++◌, ◌≡◌,
  refl, ◌==◌, if◌then◌else◌,
}
use csv_to_kafka_using_cpp.Prelude.Text.{Text, text_eq}
use csv_to_kafka_using_cpp.Prelude.Dict.{Dict}
use csv_to_kafka_using_cpp.Prelude.Int.{ℤ, pos, negsuc, ◌-ℤ◌, div_trunc, lt_ℤ, fits, to_int, stol}
use csv_to_kafka_using_cpp.Csv.Row.{CsvRow, column}
use csv_to_kafka_using_cpp.Util.{create_datum_for_type}
use csv_to_kafka_using_cpp.Registry.{the_instance, register_value_schema}
use csv_to_kafka_using_cpp.Config.Schemas.{Avro, SchemaConfig, field_name, type_name}
use csv_to_kafka_using_cpp.Processor.Frame.{Serialized, failed, written, serialize}
use csv_to_kafka_using_cpp.Processor.State.{
  ErrorCode, no_error, queue_full, other_error, Message, Library, World, Outcome, value, raised,
  crashed, waiting, M, ◌>>=◌, pure, lift,
}

-- `(now - event_timestamp) / (60 * 60 * 24)` as an `int`, more than the configured days. The
-- difference of two `long` is undefined if it does not fit.
unfoldable pub is_older : ℤ → ℤ → ℤ → Outcome Bool
is_older now event_timestamp days =
    if fits 64 (now -ℤ event_timestamp)
    then value (lt_ℤ days (to_int (div_trunc (now -ℤ event_timestamp) (60 * 60 * 24))))
    else crashed

abbrev is_no_id : ℤ → Bool
is_no_id (negsuc zero) = true
is_no_id _ = false

module _ (library : Library) where
  open library use {floats, avro, serdes, time, max_age_config}

  abbrev pub Act : Type 0 → Type 0
  Act = M (World library)

  read_clock : Act ℤ
  read_clock w = (record w { readings = w.readings + 1 }, value (time w.readings))

  -- `event_timestamp`, `now` and their comparison.
  unfoldable pub checked_age : ℤ → Text → Act Bool
  unfolding is_older read_clock
  checked_age days text = do
    event_timestamp ← lift (stol text)
    now ← read_clock
    λ w. (w, is_older now event_timestamp days)

  -- The check of the age for the field with this name: whether the row is too old.
  unfoldable pub too_old : Option (Text × ℤ) → Text → Text → Act Bool
  too_old none field_name text = pure false
  too_old (some (max_column, days)) field_name text =
      if text_eq field_name max_column then checked_age days text else pure false

  -- The loop over the columns of a topic: the record, or `none` where the row is too old, which is
  -- counted.
  unfoldable pub fill_record :
      SchemaConfig avro → CsvRow → List Text → avro.Record → Act (Option avro.Record)
  unfolding too_old
  fill_record config row [] datum = pure (some datum)
  fill_record config row (field ∷ rest) datum = do
    let name = field_name config.column_map field
    old ← too_old max_age_config name (column row field)
    let dropped : Act (Option avro.Record) =
        λ w. (record w { old_count = w.old_count + 1 }, value none)
    let kept : Act (Option avro.Record) = (do
      d ← lift (
          create_datum_for_type floats (column row field)
            (type_name config.column_type_transforms field))
      filled ← lift (avro.set_field datum name d)
      fill_record config row rest filled)
    if old then dropped else kept

  -- A topic is registered, and its entry of the map gets the id. `before` and `rest` are the other
  -- topics.
  unfoldable pub register_topic :
      Dict (SchemaConfig avro)
      → Text
      → SchemaConfig avro
      → Dict (SchemaConfig avro)
      → Act (SchemaConfig avro)
  register_topic before topic config rest = do
    registry ← (λ w. lift (the_instance serdes w.registry) w)
    id ← lift (register_value_schema serdes registry topic (avro.to_json config.schema))
    λ w. (
      record w { m_schemas = before ++ ((topic, record config { schema_id = id }) ∷ rest) },
      value (record config { schema_id = id }),
    )

  -- The topic's configuration with an id: a topic that has none is registered.
  unfoldable pub topic_id :
      Dict (SchemaConfig avro)
      → Text
      → SchemaConfig avro
      → Dict (SchemaConfig avro)
      → Act (SchemaConfig avro)
  topic_id before topic config rest =
      if is_no_id config.schema_id then register_topic before topic config rest else pure config

  -- `retry:` one call of `produce` after the other, with a `poll` behind each full queue.
  unfoldable pub produce_retry : List ErrorCode → Message → Act (Unit {0})
  produce_retry [] message w = (w, waiting)
  produce_retry (no_error ∷ rs) message w =
      (record w { produced = w.produced ++ message ∷ [] }, value tt)
  produce_retry (queue_full ∷ rs) message w =
      produce_retry rs message (record w { polls = w.polls + 1 })
  produce_retry (other_error ∷ rs) message w = (w, value tt)

  produce_next : List (List ErrorCode) → Message → Act (Unit {0})
  unfolding produce_retry
  produce_next [] message w = (w, waiting)
  produce_next (rs ∷ later) message w = produce_retry rs message (record w { responses = later })

  -- The message, and the `flush` behind it.
  unfoldable pub send : Message → Act (Unit {0})
  unfolding produce_next
  send message = do
    _ ← (λ w. produce_next w.responses message w)
    λ w. (record w { flushes = w.flushes + 1 }, value tt)

  -- Serialization and the `if` on its result; `out_data` is what it leaves.
  unfoldable pub send_serialized : Text → Text → Serialized → Text → Act Text
  unfolding send
  send_serialized topic key (failed errstr) out_data =
      λ w. (record w { interrupted = true }, value out_data)
  send_serialized topic key (written n framed) out_data = do
    _ ← send (record { topic = topic; value = framed; key = key })
    pure framed

  -- The body of the loop over the topics: the topic's configuration and `out_data` behind it, or `none` where
  -- `publish` returns.
  unfoldable pub publish_topic :
      Dict (SchemaConfig avro)
      → Text
      → SchemaConfig avro
      → Dict (SchemaConfig avro)
      → CsvRow
      → Text
      → Act (Option (SchemaConfig avro × Text))
  unfolding fill_record topic_id send_serialized
  publish_topic before topic config rest row out_data = do
    filled ← fill_record config row config.columns (avro.new_record config.schema)
    elim filled [
      | none ↦ pure none
      | some datum ↦ (do
        known ← topic_id before topic config rest
        out ←
            send_serialized topic (column row config.key_column)
              (serialize avro config.schema known.schema_id datum out_data) out_data
        pure (some (known, out)))
    ]

  -- The loop over the topics, in the order of the map. `out_data` is declared before it.
  unfoldable pub publish_topics :
      Dict (SchemaConfig avro) → Dict (SchemaConfig avro) → CsvRow → Text → Act (Unit {0})
  unfolding publish_topic
  publish_topics before [] row out_data = pure tt
  publish_topics before ((topic, config) ∷ rest) row out_data = do
    out ← publish_topic before topic config rest row out_data
    elim out [
      | none ↦ pure tt
      | some (known, next_out) ↦ publish_topics (before ++ (topic, known) ∷ []) rest row next_out
    ]

  unfoldable pub publish : CsvRow → Act (Unit {0})
  unfolding publish_topics
  publish row w = publish_topics [] w.m_schemas row [] w
