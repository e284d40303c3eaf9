-- ===== src/Main/Processors.antt =====
-- The part of `main` (src/main.cpp) from the producer to the processors.
use csv_to_kafka_using_cpp.Prelude.{
  ℕ, zero, suc, ◌+◌, ◌-◌, ◌<◌, false, Option, none, some, List, [], ◌∷◌, ◌++◌, ◌≡◌, refl, sym, ap,
  subst, ◌∙◌, arith, is_empty, length, get_elem?,
}
use csv_to_kafka_using_cpp.Prelude.Text.{Text, codes}
use csv_to_kafka_using_cpp.Prelude.Dict.{Dict}
use csv_to_kafka_using_cpp.Prelude.Decimal.{decimal}
use csv_to_kafka_using_cpp.Prelude.Result.{Result, ok, throws, undefined, std_exception}
use csv_to_kafka_using_cpp.Queue.{SafeQueue}
use csv_to_kafka_using_cpp.Processor.Builder.{
  Pointer, indeterminate, nullptr, address_of, provided, provided_channel, given_max_age,
  CsvProcessor, build,
}
use csv_to_kafka_using_cpp.Processor.Builder.Complete.{provided_schemas_ok}
use csv_to_kafka_using_cpp.Main.{
  processor_thread_count, Shared, configured, build_processor, build_processors,
}
use csv_to_kafka_using_cpp.Main.Kafka.{
  RdKafka, Setup, IsReported, kafka_setup, kafka_setup-IsReported,
}

module _ (rd_kafka : RdKafka) {V : Type 0} where
  -- `ma` is there where the configuration has the key.
  unfoldable pub prepare :
      (ℕ → Text)
      → Dict Text
      → SafeQueue Text
      → Shared V
      → Option ℕ
      → ℕ
      → Setup rd_kafka × Result (List (CsvProcessor V))
  unfolding kafka_setup
  prepare timestamp kafka_config log_queue shared ma hardware_concurrency =
      let r = kafka_setup rd_kafka timestamp kafka_config log_queue in
      (
        r.0,
        build_processors 1 (processor_thread_count hardware_concurrency)
            (record shared { kafka_producer = r.1 }) ma,
      )

module _ {V : Type 0} (shared : Shared V) (some_schema : is_empty shared.schemas ≡ false) where
  abbrev pub processor_at : ℕ → ℕ → ℕ → CsvProcessor V
  processor_at kafka_producer p i = record {
    name = codes "CsvProcessor " ++ decimal i;
    sig_channel = shared.sig_channel;
    transformers = shared.transformers;
    active_processors = shared.active_processors;
    log_cv = shared.log_cv;
    log_cv_mutex = shared.log_cv_mutex;
    kafka_producer = kafka_producer;
    schemas = shared.schemas;
    max_age_config = address_of p;
  }

  build_processor_age :
      (name : Text) (kafka_producer : ℕ)
      → ((p : ℕ)
          → build_processor name
              (record shared { kafka_producer = address_of kafka_producer })
              (some p)
            ≡ ok (record (processor_at kafka_producer p 0) { name = name }))
        × (build_processor name (record shared { kafka_producer = address_of kafka_producer }) none
            ≡ undefined)
  unfolding build_processor configured build provided provided_channel given_max_age
  build_processor_age name kafka_producer = (
    λ p. rw (provided_schemas_ok shared.schemas some_schema) refl,
    rw (provided_schemas_ok shared.schemas some_schema) refl,
  )

  build_processor_null :
      (name : Text) (ma : Option ℕ)
      → build_processor name (record shared { kafka_producer = nullptr }) ma
        ≡ throws (std_exception (codes "No kafka producer provided"))
  unfolding build_processor configured build provided
  build_processor_null name none = refl
  build_processor_null name (some p) = refl

  -- So many processors, numbered from `i` on.
  pub record AreNumbered (kafka_producer p i count : ℕ) (ps : List (CsvProcessor V)) : Type 0 where
    pub number : length ps ≡ count
    pub each : (k : ℕ) → k < count → get_elem? ps k ≡ some (processor_at kafka_producer p (i + k))

  numbered_each :
      (kafka_producer p i count : ℕ) (ps : List (CsvProcessor V))
      → ((k : ℕ) → k < count → get_elem? ps k ≡ some (processor_at kafka_producer p (i + 1 + k)))
      → (k : ℕ) → k < suc count
      → get_elem? (processor_at kafka_producer p i ∷ ps) k
        ≡ some (processor_at kafka_producer p (i + k))
  numbered_each kafka_producer p i count ps h zero l =
      ap (λ (j : ℕ). some (processor_at kafka_producer p j)) (omega arith)
  numbered_each kafka_producer p i count ps h (suc k) l =
      h k (omega (arith, l)) ∙ ap (λ (j : ℕ). some (processor_at kafka_producer p j)) (omega arith)

  build_processors_all :
      (kafka_producer p i count : ℕ)
      → (ps : List (CsvProcessor V)) × (build_processors i count
            (record shared { kafka_producer = address_of kafka_producer })
            (some p)
          ≡ ok ps)
        × AreNumbered kafka_producer p i count ps
  unfolding build_processors
  build_processors_all kafka_producer p i zero =
      ([], refl, record { number = refl; each = λ k h. elim h [ ] })
  build_processors_all kafka_producer p i (suc count) =
      let (ps, built, n) = build_processors_all kafka_producer p (i + 1) count in
      (
        processor_at kafka_producer p i ∷ ps,
        rw ((build_processor_age (codes "CsvProcessor " ++ decimal i) kafka_producer).0 p, built)
            refl,
        record {
          number = omega (arith, n.number);
          each = numbered_each kafka_producer p i count ps n.each;
        },
      )

  build_processors_no_age :
      (kafka_producer i count : ℕ)
      → build_processors i
          (suc count)
          (record shared { kafka_producer = address_of kafka_producer })
          none
        ≡ undefined
  unfolding build_processors
  build_processors_no_age kafka_producer i count =
      rw ((build_processor_age (codes "CsvProcessor " ++ decimal i) kafka_producer).1) refl

  build_processors_null :
      (i count : ℕ) (ma : Option ℕ)
      → build_processors i (suc count) (record shared { kafka_producer = nullptr }) ma
        ≡ throws (std_exception (codes "No kafka producer provided"))
  unfolding build_processors
  build_processors_null i count ma =
      rw (build_processor_null (codes "CsvProcessor " ++ decimal i) ma) refl

  -- What there is for each kind of producer, with the largest age or without it.
  abbrev pub IsPrepared : Pointer ℕ → Option ℕ → ℕ → Result (List (CsvProcessor V)) → Type 0
  IsPrepared indeterminate ma count r = Unit
  IsPrepared nullptr ma count r = r ≡ throws (std_exception (codes "No kafka producer provided"))
  IsPrepared (address_of kafka_producer) none count r = r ≡ undefined
  IsPrepared (address_of kafka_producer) (some p) count r =
      (ps : List (CsvProcessor V)) × (r ≡ ok ps) × AreNumbered kafka_producer p 1 count ps

  build_processors-IsPrepared :
      (producer : Pointer ℕ) (ma : Option ℕ) (count : ℕ)
      → IsPrepared producer ma
          (suc count)
          (build_processors 1 (suc count) (record shared { kafka_producer = producer }) ma)
  build_processors-IsPrepared indeterminate ma count = tt
  build_processors-IsPrepared nullptr ma count = build_processors_null 1 count ma
  build_processors-IsPrepared (address_of kafka_producer) none count =
      build_processors_no_age kafka_producer 1 count
  build_processors-IsPrepared (address_of kafka_producer) (some p) count =
      build_processors_all kafka_producer p 1 (suc count)

one_at_least : (n : ℕ) → (count : ℕ) × (processor_thread_count n ≡ suc count)
unfolding processor_thread_count
one_at_least n = (processor_thread_count n - 1, ground arith)

-- Once there is a schema: a producer and a configuration with `max_age` give the processors, with all
-- settings, as many as there are to be and numbered from 1; without `max_age` the first of them
-- reads a pointer that was never set. Where librdkafka gives no producer, a signal has been sent and
-- logged, but `main` goes on, and building the first processor throws. There is a line in the log
-- for each signal.
pub prepare-IsPrepared :
    (rd_kafka : RdKafka) {V : Type 0} (timestamp : ℕ → Text) (kafka_config : Dict Text)
    (log_queue : SafeQueue Text) (shared : Shared V) (ma : Option ℕ) (n : ℕ)
    (some_schema : is_empty shared.schemas ≡ false)
    → let producer = (kafka_setup rd_kafka timestamp kafka_config log_queue).1 in
      let r = prepare rd_kafka timestamp kafka_config log_queue shared ma n in
      IsPrepared shared some_schema producer ma (processor_thread_count n) r.1
      × IsReported rd_kafka log_queue r.0
      × (producer ≡ nullptr → 0 < r.0.interrupts)
unfolding prepare
prepare-IsPrepared rd_kafka timestamp kafka_config log_queue shared ma n some_schema =
    let producer = (kafka_setup rd_kafka timestamp kafka_config log_queue).1 in
    let (count, e) = one_at_least n in
    let (reported, signal) = kafka_setup-IsReported rd_kafka timestamp kafka_config log_queue in
    (
      subst
          (λ (c : ℕ).
            IsPrepared shared some_schema producer ma c
              (build_processors 1 c (record shared { kafka_producer = producer }) ma))
          (sym e) (build_processors-IsPrepared shared some_schema producer ma count),
      reported,
      signal,
    )
