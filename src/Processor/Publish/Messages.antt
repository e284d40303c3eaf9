-- ===== src/Processor/Publish/Messages.antt =====
-- The messages that `CsvProcessor::publish` (src/impl/CsvProcessor.cpp) sends for a row.
use csv_to_kafka_using_cpp.Prelude.{
  ℕ, zero, suc, ◌+◌, false, Option, none, some, List, [], ◌∷◌, ◌++◌, ◌≡◌, refl, sym, subst, ◌∙◌,
  arith, append_assoc, append-nil, length,
}
use csv_to_kafka_using_cpp.Prelude.Text.{Text}
use csv_to_kafka_using_cpp.Prelude.Dict.{Dict}
use csv_to_kafka_using_cpp.Prelude.Int.{ℤ}
use csv_to_kafka_using_cpp.Csv.Row.{CsvRow, column}
use csv_to_kafka_using_cpp.Config.Schemas.{SchemaConfig, encoded}
use csv_to_kafka_using_cpp.Processor.Frame.{network_bytes, written, serialize}
use csv_to_kafka_using_cpp.Processor.State.{
  ErrorCode, no_error, queue_full, Message, Library, World, Outcome, value, raised,
}
use csv_to_kafka_using_cpp.Processor.Publish.Filling.{
  Stop, row_old, throwing, filled, stopped, Fills, read_at, stop_with, fill_record-Fills,
}
use csv_to_kafka_using_cpp.Processor.Publish.{
  topic_id, is_no_id, produce_retry, produce_next, send, send_serialized, publish_topic,
  publish_topics, publish,
}

-- The answers for a message that is taken after `n` times of a full queue.
abbrev pub full_then_taken : ℕ → List ErrorCode → List ErrorCode
full_then_taken zero rs = no_error ∷ rs
full_then_taken (suc n) rs = queue_full ∷ full_then_taken n rs

-- One Kafka frame.
abbrev pub frame : ℤ → Text → Text
frame id bytes = 0 ∷ (network_bytes id ++ bytes)

module _ (library : Library) where
  open library use {floats, avro, serdes}

  -- However often the queue is full, the retries end with the message taken once, and one `poll`
  -- for each time that it was full.
  pub produce_retry_taken :
      (n : ℕ) (rs : List ErrorCode) (message : Message) (w : World library)
      → produce_retry library (full_then_taken n rs) message w
        ≡ (record w { produced = w.produced ++ message ∷ []; polls = w.polls + n }, value tt)
  unfolding produce_retry
  produce_retry_taken zero rs message w = ground arith
  produce_retry_taken (suc n) rs message w =
      produce_retry_taken n rs message (record w { polls = w.polls + 1 }) ∙ ground arith

  -- What the topics send for a row, between two readings of the clock: each topic fills its record
  -- and sends it, up to the first that stops the row, if one does. Every topic has an id and every
  -- record can be encoded. `out_data` is what was written before.
  pub data Sends (row : CsvRow)
      : Text → Dict (SchemaConfig avro) → ℕ → List Message → Option Stop → ℕ → Type 0 where
    all_sent : {out_data : Text} {k : ℕ} → Sends row out_data [] k [] none k
    sends :
        {out_data : Text} {topic : Text} {config : SchemaConfig avro}
        {rest : Dict (SchemaConfig avro)} {k l m : ℕ} {ms : List Message} {end : Option Stop}
        (datum : avro.Record) (bytes : Text)
        → Fills library config row config.columns (avro.new_record config.schema) k (filled datum) l
        → avro.encode config.schema datum ≡ encoded bytes
        → is_no_id config.schema_id ≡ false
        → Sends row (out_data ++ frame config.schema_id bytes) rest l ms end m
        → Sends row out_data
            ((topic, config) ∷ rest)
            k
            (record {
              topic = topic;
              value = out_data ++ frame config.schema_id bytes;
              key = column row config.key_column;
            }
              ∷ ms)
            end
            m
    stops :
        {out_data : Text} {topic : Text} {config : SchemaConfig avro}
        {rest : Dict (SchemaConfig avro)} {k l : ℕ} {s : Stop}
        → Fills library config row config.columns (avro.new_record config.schema) k (stopped s) l
        → Sends row out_data ((topic, config) ∷ rest) k [] (some s) l

  -- How `publish` ends then, and whether the row is counted as too old.
  abbrev pub outcome_of : Option Stop → Outcome (Unit {0})
  outcome_of none = value tt
  outcome_of (some row_old) = value tt
  outcome_of (some (throwing e)) = raised e

  abbrev pub old_rows : Option Stop → ℕ
  old_rows none = 0
  old_rows (some row_old) = 1
  old_rows (some (throwing e)) = 0

  -- Each of the messages is taken, after some retries; the last list has the answers that are left.
  pub data AllTaken : List Message → List (List ErrorCode) → List (List ErrorCode) → Type 0 where
    no_more : {left : List (List ErrorCode)} → AllTaken [] left left
    taken :
        {m : Message} {ms : List Message} {later left : List (List ErrorCode)} (n : ℕ)
        (rs : List ErrorCode)
        → AllTaken ms later left
        → AllTaken (m ∷ ms) (full_then_taken n rs ∷ later) left

  sent : World library → Message → List (List ErrorCode) → ℕ → World library
  sent w m later n = record w {
    produced = w.produced ++ m ∷ [];
    polls = w.polls + n;
    responses = later;
    flushes = w.flushes + 1;
  }

  send_taken :
      (w : World library) (m : Message) (later : List (List ErrorCode)) (n : ℕ)
      (rs : List ErrorCode)
      → w.responses ≡ full_then_taken n rs ∷ later
      → send library m w ≡ (sent w m later n, value tt)
  unfolding send sent
  send_taken w m later n rs e =
      rw (e, produce_next) (rw (produce_retry_taken n rs m (record w { responses = later })))

  serialize_encoded :
      (schema : avro.ValidSchema) (id : ℤ) (datum : avro.Record) (out bytes : Text)
      → avro.encode schema datum ≡ encoded bytes
      → serialize avro schema id datum out
        ≡ written (length (out ++ frame id bytes)) (out ++ frame id bytes)
  unfolding serialize
  serialize_encoded schema id datum out bytes e = rw (e, serialize)

  topic_id_known :
      (before rest : Dict (SchemaConfig avro)) (topic : Text) (config : SchemaConfig avro)
      (w : World library)
      → is_no_id config.schema_id ≡ false
      → topic_id library before topic config rest w ≡ (w, value config)
  unfolding topic_id
  topic_id_known before rest topic config w i = rw i

  send_serialized_taken :
      (topic key framed out_data : Text) (k : ℕ) (w : World library) (later : List (List ErrorCode))
      (n : ℕ) (rs : List ErrorCode)
      → w.responses ≡ full_then_taken n rs ∷ later
      → send_serialized library topic key (written k framed) out_data w
        ≡ (sent w (record { topic = topic; value = framed; key = key }) later n, value framed)
  unfolding send_serialized
  send_serialized_taken topic key framed out_data k w later n rs r =
      rw (send_taken w (record { topic = topic; value = framed; key = key }) later n rs r)

  publish_topic_sends :
      (before rest : Dict (SchemaConfig avro)) (topic : Text) (config : SchemaConfig avro)
      (row : CsvRow) (out_data : Text) (datum : avro.Record) (bytes : Text) (k l : ℕ)
      (w : World library) (later : List (List ErrorCode)) (n : ℕ) (rs : List ErrorCode)
      → Fills library config row config.columns (avro.new_record config.schema) k (filled datum) l
      → avro.encode config.schema datum ≡ encoded bytes
      → is_no_id config.schema_id ≡ false
      → w.responses ≡ full_then_taken n rs ∷ later
      → publish_topic library before topic config rest row out_data (read_at library w k) ≡ (
        sent
            (read_at library w l)
            (record {
              topic = topic;
              value = out_data ++ frame config.schema_id bytes;
              key = column row config.key_column;
            })
            later
            n,
        value (some (config, out_data ++ frame config.schema_id bytes)),
      )
  unfolding publish_topic
  publish_topic_sends before rest topic config row out_data datum bytes k l w later n rs f e i r =
      rw (fill_record-Fills library w f) (
        rw (topic_id_known before rest topic config (read_at library w l) i) (
          rw (serialize_encoded config.schema config.schema_id datum out_data bytes e) (
            rw (
              send_serialized_taken topic (column row config.key_column) _ out_data _
                (read_at library w l) later n rs r))))

  publish_topic_stops :
      (before rest : Dict (SchemaConfig avro)) (topic : Text) (config : SchemaConfig avro)
      (row : CsvRow) (out_data : Text) (k l : ℕ) (s : Stop) (w : World library)
      → Fills library config row config.columns (avro.new_record config.schema) k (stopped s) l
      → publish_topic library before topic config rest row out_data (read_at library w k)
        ≡ stop_with library none s (read_at library w l)
  unfolding publish_topic
  publish_topic_stops before rest topic config row out_data k l row_old w f =
      rw (fill_record-Fills library w f) refl
  publish_topic_stops before rest topic config row out_data k l (throwing e) w f =
      rw (fill_record-Fills library w f) refl

  -- From one state to another, with some messages taken and some answers left.
  pub record Publishes (w w' : World library) (ms : List Message) (olds readings : ℕ)
      (left : List (List ErrorCode)) : Type 0 where
    pub taken_messages : w'.produced ≡ w.produced ++ ms
    pub counted_old : w'.old_count ≡ w.old_count + olds
    pub clock_read : w'.readings ≡ readings
    pub same_schemas : w'.m_schemas ≡ w.m_schemas
    pub answers_left : w'.responses ≡ left

  stopped_topics :
      (row : CsvRow) (before rest : Dict (SchemaConfig avro)) (topic : Text)
      (config : SchemaConfig avro) (out_data : Text) (k l : ℕ) (s : Stop) (w : World library)
      → Fills library config row config.columns (avro.new_record config.schema) k (stopped s) l
      → (w' : World library) × (publish_topics library before
            ((topic, config) ∷ rest)
            row
            out_data
            (read_at library w k)
          ≡ (w', outcome_of (some s)))
        × Publishes w w' [] (old_rows (some s)) l w.responses
  unfolding publish_topics
  stopped_topics row before rest topic config out_data k l row_old w f = (
    record w { readings = l; old_count = w.old_count + 1 },
    rw (publish_topic_stops before rest topic config row out_data k l row_old w f) refl,
    record {
      taken_messages = sym (append-nil w.produced);
      counted_old = refl;
      clock_read = refl;
      same_schemas = refl;
      answers_left = refl;
    },
  )
  stopped_topics row before rest topic config out_data k l (throwing e) w f = (
    read_at library w l,
    rw (publish_topic_stops before rest topic config row out_data k l (throwing e) w f) refl,
    record {
      taken_messages = sym (append-nil w.produced);
      counted_old = omega arith;
      clock_read = refl;
      same_schemas = refl;
      answers_left = refl;
    },
  )

  publish_topics-Sends :
      (row : CsvRow) (before : Dict (SchemaConfig avro)) {topics : Dict (SchemaConfig avro)}
      {out_data : Text} {k l : ℕ} {ms : List Message} {end : Option Stop}
      {rss left : List (List ErrorCode)} (w : World library)
      → Sends row out_data topics k ms end l
      → AllTaken ms rss left
      → w.responses ≡ rss
      → (w' : World library) × (publish_topics library before topics row out_data
            (read_at library w k)
          ≡ (w', outcome_of end))
        × Publishes w w' ms (old_rows end) l left
  unfolding publish_topics sent
  publish_topics-Sends row before {k} w all_sent no_more r = (
    read_at library w k,
    refl,
    record {
      taken_messages = sym (append-nil w.produced);
      counted_old = omega arith;
      clock_read = refl;
      same_schemas = refl;
      answers_left = r;
    },
  )
  publish_topics-Sends row before {left} w (stops {out_data} {topic} {config} {rest} {k} {l} {s} f)
        no_more r =
      let (w', p, q) = stopped_topics row before rest topic config out_data k l s w f in
      (w', p, subst (Publishes w w' [] (old_rows (some s)) l) r q)
  publish_topics-Sends row before {l = end_readings} w
        (sends {out_data} {topic} {config} {rest} {k} {l} {ms} datum bytes f e i s)
        (taken {later} n rs t) r =
      let m : Message = record {
        topic = topic;
        value = out_data ++ frame config.schema_id bytes;
        key = column row config.key_column;
      } in
      let (w', p, q) =
        publish_topics-Sends row (before ++ (topic, config) ∷ []) (sent w m later n) s t refl in
      (
        w',
        rw
            (publish_topic_sends before rest topic config row out_data datum bytes k l w later n rs
              f e i r)
            p,
        record {
          taken_messages = q.taken_messages ∙ append_assoc w.produced (m ∷ []) ms;
          counted_old = q.counted_old;
          clock_read = q.clock_read;
          same_schemas = q.same_schemas;
          answers_left = q.answers_left;
        },
      )

  -- Where every topic has an id, every record can be encoded, and every message is taken after some
  -- retries, `publish` sends one message for each topic, in the order of the topics, with the
  -- topic's key column as key, up to the first topic that does not fill its record. If there is
  -- none, or if that topic finds the row too old, `publish` returns, and counts the row that is
  -- too old; else it throws what the age, the value or the field of that topic throws. The clock
  -- is read once for each age that is checked, and the answers for later messages are left. The
  -- value of a message is its own frame behind the frames of all topics before it, since
  -- `out_data` is never cleared; so only the first topic gets its own frame alone.
  pub publish_messages :
      (row : CsvRow) {ms : List Message} {end : Option Stop} {l : ℕ} {left : List (List ErrorCode)}
      (w : World library)
      → Sends row [] w.m_schemas w.readings ms end l
      → AllTaken ms w.responses left
      → (w' : World library) × (publish library row w ≡ (w', outcome_of end))
        × Publishes w w' ms (old_rows end) l left
  unfolding publish
  publish_messages row w s t = publish_topics-Sends row [] w s t refl
