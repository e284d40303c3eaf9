-- ===== src/Processor/Builder.antt =====
-- src/impl/CsvProcessorBuilder.cpp: the settings of a `CsvProcessor` and the checks of `build`.
pub mod Complete
use csv_to_kafka_using_cpp.Prelude.{
  ℕ, Bool, true, false, Option, none, some, List, [], ◌∷◌, ◌≡◌, refl, if◌then◌else◌, is_empty,
}
use csv_to_kafka_using_cpp.Prelude.Text.{Text, codes}
use csv_to_kafka_using_cpp.Prelude.Dict.{Dict}
use csv_to_kafka_using_cpp.Prelude.Result.{Result, ok, throws, undefined, std_exception, ◌>>=◌}

-- A member that is a raw pointer: one that no constructor has given a value, `nullptr`, or the
-- address of an object, which is written as the object.
pub data Pointer (A : Type 0) : Type 0 where
  indeterminate : Pointer A
  nullptr : Pointer A
  address_of : A → Pointer A

-- The objects that are only passed on are numbers. `V` is what the schemas map to.
pub record CsvProcessorBuilder (V : Type 0) : Type 0 where
  pub m_name : Text
  pub m_transformers : Pointer ℕ
  pub m_active_processors : Pointer ℕ
  pub m_log_cv : Pointer ℕ
  pub m_log_cv_mutex : Pointer ℕ
  pub m_kafka_producer : Pointer ℕ
  pub m_sig_channel : Option ℕ
  pub m_schemas : Pointer (Dict V)
  pub m_max_age : Pointer ℕ

pub record CsvProcessor (V : Type 0) : Type 0 where
  pub name : Text
  pub sig_channel : ℕ
  pub transformers : ℕ
  pub active_processors : ℕ
  pub log_cv : ℕ
  pub log_cv_mutex : ℕ
  pub kafka_producer : ℕ
  pub schemas : Dict V
  pub max_age_config : Pointer ℕ

-- The constructor, with the initializers of the header.
abbrev pub builder : {V : Type 0} → Text → CsvProcessorBuilder V
builder name = record {
  m_name = name;
  m_transformers = nullptr;
  m_active_processors = nullptr;
  m_log_cv = nullptr;
  m_log_cv_mutex = nullptr;
  m_kafka_producer = indeterminate;
  m_sig_channel = none;
  m_schemas = indeterminate;
  m_max_age = indeterminate;
}

module _ {V : Type 0} where
  abbrev pub with_transformers : Pointer ℕ → CsvProcessorBuilder V → CsvProcessorBuilder V
  with_transformers t b = record b { m_transformers = t }

  abbrev pub with_active_processors_counter :
      Pointer ℕ → CsvProcessorBuilder V → CsvProcessorBuilder V
  with_active_processors_counter c b = record b { m_active_processors = c }

  abbrev pub with_logging_cv : Pointer ℕ → CsvProcessorBuilder V → CsvProcessorBuilder V
  with_logging_cv cv b = record b { m_log_cv = cv }

  abbrev pub with_logging_mutex : Pointer ℕ → CsvProcessorBuilder V → CsvProcessorBuilder V
  with_logging_mutex m b = record b { m_log_cv_mutex = m }

  abbrev pub with_kafka_producer : Pointer ℕ → CsvProcessorBuilder V → CsvProcessorBuilder V
  with_kafka_producer kp b = record b { m_kafka_producer = kp }

  abbrev pub with_schemas : Pointer (Dict V) → CsvProcessorBuilder V → CsvProcessorBuilder V
  with_schemas s b = record b { m_schemas = s }

  abbrev pub with_sig_channel : Option ℕ → CsvProcessorBuilder V → CsvProcessorBuilder V
  with_sig_channel sc b = record b { m_sig_channel = sc }

  abbrev pub with_drop_max_age : Pointer ℕ → CsvProcessorBuilder V → CsvProcessorBuilder V
  with_drop_max_age p b = record b { m_max_age = p }

-- `if (!p) throw std::runtime_error(...)`: to read a pointer without a value is undefined.
unfoldable pub provided : {A : Type 0} → Text → Pointer A → Result A
provided message indeterminate = undefined
provided message nullptr = throws (std_exception message)
provided message (address_of a) = ok a

-- `if (m_schemas->empty()) throw ...`
unfoldable pub provided_schemas : {V : Type 0} → Pointer (Dict V) → Result (Dict V)
provided_schemas (address_of []) = throws (std_exception (codes "No schemas provided"))
provided_schemas (address_of (s ∷ ss)) = ok (s ∷ ss)
provided_schemas _ = undefined

unfoldable pub provided_channel : Option ℕ → Result ℕ
provided_channel none = throws (std_exception (codes "No signal channel provided"))
provided_channel (some sc) = ok sc

-- `if (m_max_age)`: the processor's own member has no initializer.
unfoldable pub given_max_age : Pointer ℕ → Result (Pointer ℕ)
given_max_age indeterminate = undefined
given_max_age nullptr = ok indeterminate
given_max_age (address_of p) = ok (address_of p)

module _ {V : Type 0} where
  unfoldable pub build : CsvProcessorBuilder V → Result (CsvProcessor V)
  unfolding provided provided_schemas provided_channel given_max_age
  build b = do
    t ← provided (codes "No transformers provided") b.m_transformers
    c ← provided (codes "No active processors counter provided") b.m_active_processors
    cv ← provided (codes "No log cv provided") b.m_log_cv
    m ← provided (codes "No log cv mutex provided") b.m_log_cv_mutex
    kp ← provided (codes "No kafka producer provided") b.m_kafka_producer
    s ← provided_schemas b.m_schemas
    sc ← provided_channel b.m_sig_channel
    p ← given_max_age b.m_max_age
    ok (record {
      name = b.m_name;
      sig_channel = sc;
      transformers = t;
      active_processors = c;
      log_cv = cv;
      log_cv_mutex = m;
      kafka_producer = kp;
      schemas = s;
      max_age_config = p;
    })
