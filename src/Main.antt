-- ===== src/Main.antt =====
-- src/main.cpp: the arguments, and the processors with their builders.
pub mod Startup
pub mod Kafka
pub mod Processors
pub mod Shutdown
use csv_to_kafka_using_cpp.Prelude.{
  ℕ, zero, suc, ◌+◌, ◌-◌, ◌/◌, ◌%◌, ◌^◌, ◌==◌, Bool, true, false, not, Option, none, some, List, [],
  ◌∷◌, ◌++◌, ltb, if◌then◌else◌, is_empty,
}
use csv_to_kafka_using_cpp.Prelude.Text.{Text, codes}
use csv_to_kafka_using_cpp.Prelude.Decimal.{decimal}
use csv_to_kafka_using_cpp.Prelude.Dict.{Dict}
use csv_to_kafka_using_cpp.Prelude.Result.{Result, ok, ◌>>=◌}
use csv_to_kafka_using_cpp.Processor.Builder.{
  Pointer, nullptr, address_of, CsvProcessorBuilder, CsvProcessor, builder, with_transformers,
  with_active_processors_counter, with_logging_cv, with_logging_mutex, with_kafka_producer,
  with_schemas, with_sig_channel, with_drop_max_age, build,
}

-- What `getopt` gives for "d:c:": an option with its argument, or `?`.
pub data Argument : Type 0 where
  option_d option_c : Text → Argument
  unknown_option : Argument

-- `st_mode & S_IFDIR`, which is the bit of weight 0040000: it is set for a directory, and also for a
-- socket and for a block device.
unfoldable pub has_directory_bit : ℕ → Bool
has_directory_bit st_mode = (st_mode / 2 ^ 14) % 2 == 1

pub record Settings : Type 0 where
  pub config_file : Text
  pub dir_to_watch : Text

-- The loop over the options; `none` where the program exits with 1.
unfoldable pub read_options : List Argument → Settings → Option Settings
read_options [] s = some s
read_options (option_d optarg ∷ rest) s = read_options rest (record s { dir_to_watch = optarg })
read_options (option_c optarg ∷ rest) s = read_options rest (record s { config_file = optarg })
read_options (unknown_option ∷ rest) s = none

-- The checks behind it. `stat` gives the mode of what is at a path, if it can be accessed.
unfoldable pub check_directory : (Text → Option ℕ) → Text → Bool
unfolding has_directory_bit
check_directory stat path =
    if is_empty path
    then false
    else elim (stat path) [ none ↦ false | some st_mode ↦ has_directory_bit st_mode ]

unfoldable pub check_config : (Text → Option ℕ) → Text → Bool
unfolding has_directory_bit
check_config stat path =
    if is_empty path
    then false
    else elim (stat path) [ none ↦ false | some st_mode ↦ not (has_directory_bit st_mode) ]

unfoldable pub parse_args : (Text → Option ℕ) → List Argument → Option Settings
unfolding read_options check_directory check_config
parse_args stat arguments =
    elim (read_options arguments (record { config_file = []; dir_to_watch = [] })) [
      | none ↦ none
      | some s ↦
          if check_directory stat s.dir_to_watch
          then (if check_config stat s.config_file then some s else none)
          else none
    ]

-- `std::max<unsigned int>(1, hardware_concurrency() - 5)`, in 32 bits.
unfoldable pub processor_thread_count : ℕ → ℕ
processor_thread_count hardware_concurrency =
    let difference = (hardware_concurrency + (2 ^ 32 - 5)) % 2 ^ 32 in
    if ltb 1 difference then difference else 1

-- What the builders of all processors are given: the addresses of the objects of `main`.
pub record Shared (V : Type 0) : Type 0 where
  pub active_processors : ℕ
  pub log_cv : ℕ
  pub log_cv_mutex : ℕ
  pub transformers : ℕ
  pub kafka_producer : Pointer ℕ
  pub schemas : Dict V
  pub sig_channel : ℕ

module _ {V : Type 0} where
  -- One round of the loop that builds the processors. `ma` is the largest age where the
  -- configuration has the key.
  unfoldable pub configured : Text → Shared V → Option ℕ → CsvProcessorBuilder V
  configured name shared ma =
      let basic = with_sig_channel (some shared.sig_channel) (
        with_schemas (address_of shared.schemas) (
          with_kafka_producer shared.kafka_producer (
            with_transformers (address_of shared.transformers) (
              with_logging_mutex (address_of shared.log_cv_mutex) (
                with_logging_cv (address_of shared.log_cv) (
                  with_active_processors_counter (address_of shared.active_processors)
                    (builder name))))))) in
      elim ma [ none ↦ basic | some p ↦ with_drop_max_age (address_of p) basic ]

  unfoldable pub build_processor : Text → Shared V → Option ℕ → Result (CsvProcessor V)
  unfolding configured
  build_processor name shared ma = build (configured name shared ma)

  -- The loop: `count` processors, from the number `i` on.
  unfoldable pub build_processors : ℕ → ℕ → Shared V → Option ℕ → Result (List (CsvProcessor V))
  unfolding build_processor
  build_processors i zero shared ma = ok []
  build_processors i (suc count) shared ma = do
    processor ← build_processor (codes "CsvProcessor " ++ decimal i) shared ma
    processors ← build_processors (i + 1) count shared ma
    ok (processor ∷ processors)
