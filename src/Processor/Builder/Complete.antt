-- ===== src/Processor/Builder/Complete.antt =====
-- When `CsvProcessorBuilder::build` (src/impl/CsvProcessorBuilder.cpp) gives a processor.
use csv_to_kafka_using_cpp.Prelude.{
  ℕ, false, Option, none, some, [], ◌∷◌, ◌≡◌, ◌↔◌, refl, sym, ap, subst, is_empty,
}
use csv_to_kafka_using_cpp.Prelude.Text.{Text, codes}
use csv_to_kafka_using_cpp.Prelude.Dict.{Dict}
use csv_to_kafka_using_cpp.Prelude.Result.{ok, >>=-eq-ok}
use csv_to_kafka_using_cpp.Processor.Builder.{
  Pointer, indeterminate, nullptr, address_of, CsvProcessorBuilder, CsvProcessor, provided,
  provided_schemas, provided_channel, given_max_age, build,
}

-- The processor has what was handed to the builder. The largest age was handed over as well, be
-- it as a null pointer.
pub record Matches {V : Type 0} (b : CsvProcessorBuilder V) (p : CsvProcessor V) : Type 0 where
  pub same_name : p.name ≡ b.m_name
  pub has_transformers : b.m_transformers ≡ address_of p.transformers
  pub has_counter : b.m_active_processors ≡ address_of p.active_processors
  pub has_cv : b.m_log_cv ≡ address_of p.log_cv
  pub has_mutex : b.m_log_cv_mutex ≡ address_of p.log_cv_mutex
  pub has_producer : b.m_kafka_producer ≡ address_of p.kafka_producer
  pub has_schemas : b.m_schemas ≡ address_of p.schemas
  pub some_schema : is_empty p.schemas ≡ false
  pub has_channel : b.m_sig_channel ≡ some p.sig_channel
  pub has_age : given_max_age b.m_max_age ≡ ok p.max_age_config

provided_iff :
    {A : Type 0} (message : Text) (q : Pointer A) (a : A)
    → (provided message q ≡ ok a)
    → q ≡ address_of a
unfolding provided
provided_iff message indeterminate a h = cc
provided_iff message nullptr a h = cc
provided_iff message (address_of b) a h = cc

provided_schemas_iff :
    {V : Type 0} (q : Pointer (Dict V)) (s : Dict V)
    → provided_schemas q ≡ ok s
    → (q ≡ address_of s) × (is_empty s ≡ false)
unfolding provided_schemas
provided_schemas_iff indeterminate s h = cc
provided_schemas_iff nullptr s h = cc
provided_schemas_iff (address_of []) s h = cc
provided_schemas_iff (address_of (x ∷ xs)) s h =
    (cc, let e : x ∷ xs ≡ s = cc in ap is_empty (sym e))

provided_channel_iff : (q : Option ℕ) (n : ℕ) → provided_channel q ≡ ok n → q ≡ some n
unfolding provided_channel
provided_channel_iff none n h = cc
provided_channel_iff (some m) n h = cc

pub provided_schemas_ok :
    {V : Type 0} (s : Dict V) → is_empty s ≡ false → provided_schemas (address_of s) ≡ ok s
unfolding provided_schemas
provided_schemas_ok [] h = cc
provided_schemas_ok (x ∷ xs) h = refl

ok-eq : {A : Type 0} (a b : A) → ok a ≡ ok b → a ≡ b
ok-eq a b h = cc

module _ {V : Type 0} where
  build_sound : (b : CsvProcessorBuilder V) (p : CsvProcessor V) → build b ≡ ok p → Matches b p
  unfolding build
  build_sound b p h0 =
      let (t, et, h1) =
        >>=-eq-ok (provided (codes "No transformers provided") b.m_transformers) _ h0 in
      let (c, ec, h2) =
        >>=-eq-ok (provided (codes "No active processors counter provided") b.m_active_processors) _
          h1 in
      let (cv, ev, h3) = >>=-eq-ok (provided (codes "No log cv provided") b.m_log_cv) _ h2 in
      let (m, em, h4) =
        >>=-eq-ok (provided (codes "No log cv mutex provided") b.m_log_cv_mutex) _ h3 in
      let (kp, ek, h5) =
        >>=-eq-ok (provided (codes "No kafka producer provided") b.m_kafka_producer) _ h4 in
      let (s, es, h6) = >>=-eq-ok (provided_schemas b.m_schemas) _ h5 in
      let (sc, ei, h7) = >>=-eq-ok (provided_channel b.m_sig_channel) _ h6 in
      let (a, ea, h8) = >>=-eq-ok (given_max_age b.m_max_age) _ h7 in
      subst (Matches b) (ok-eq _ p h8) (record {
        same_name = refl;
        has_transformers = provided_iff _ b.m_transformers t et;
        has_counter = provided_iff _ b.m_active_processors c ec;
        has_cv = provided_iff _ b.m_log_cv cv ev;
        has_mutex = provided_iff _ b.m_log_cv_mutex m em;
        has_producer = provided_iff _ b.m_kafka_producer kp ek;
        has_schemas = (provided_schemas_iff b.m_schemas s es).0;
        some_schema = (provided_schemas_iff b.m_schemas s es).1;
        has_channel = provided_channel_iff b.m_sig_channel sc ei;
        has_age = ea;
      })

  build_complete : (b : CsvProcessorBuilder V) (p : CsvProcessor V) → Matches b p → build b ≡ ok p
  unfolding build provided provided_channel
  build_complete b p m =
      rw
        (
          m.has_transformers,
          m.has_counter,
          m.has_cv,
          m.has_mutex,
          m.has_producer,
          m.has_schemas,
          provided_schemas_ok p.schemas m.some_schema,
          m.has_channel,
          m.has_age,
          sym m.same_name,
        )
        refl

  -- `build` gives a processor exactly if all settings were made, none with a null pointer but
  -- the largest age, and there is a schema; it is the processor with these settings.
  pub build_iff : (b : CsvProcessorBuilder V) (p : CsvProcessor V) → (build b ≡ ok p) ↔ Matches b p
  build_iff b p = (build_sound b p, build_complete b p)
