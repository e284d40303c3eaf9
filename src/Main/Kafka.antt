-- ===== src/Main/Kafka.antt =====
-- The part of `main` (src/main.cpp) that configures librdkafka and makes the producer.
use csv_to_kafka_using_cpp.Prelude.{
  ℕ, ◌+◌, ◌<◌, ◌≡◌, ◌∙◌, arith, length, length-append, Option, none, some, [], ◌∷◌, ◌++◌,
}
use csv_to_kafka_using_cpp.Prelude.Text.{Text, codes}
use csv_to_kafka_using_cpp.Prelude.Dict.{Dict, find}
use csv_to_kafka_using_cpp.Queue.{SafeQueue, enqueue}
use csv_to_kafka_using_cpp.Processor.Builder.{Pointer, nullptr, address_of}
use csv_to_kafka_using_cpp.Logging.{error, create_log, log_at}

-- librdkafka: the configuration, its setters with the error text where they fail, and the
-- producers by their addresses.
pub record RdKafka : Type 1 where
  pub Conf : Type 0
  pub new_conf : Conf
  pub set : Text → Text → Conf → Conf × Option Text
  pub set_dr_cb : Conf → Conf × Option Text
  pub create_producer : Conf → Option ℕ × Text

abbrev name : Text
name = codes "main"

module _ (rd_kafka : RdKafka) where
  open rd_kafka use {Conf, new_conf, set, set_dr_cb, create_producer}

  -- `interrupts` counts the calls of `kill(getpid(), SIGINT)`.
  pub record Setup : Type 0 where
    pub conf : Conf
    pub log_queue : SafeQueue Text
    pub interrupts : ℕ

  -- The body of the `if` behind each call. The program goes on.
  abbrev complain : Text → Text → Setup → Setup
  complain timestamp message s = record s {
    log_queue = log_at error timestamp message name s.log_queue;
    interrupts = s.interrupts + 1;
  }

  abbrev checked : Text → Conf × Option Text → Setup → Setup
  checked timestamp (conf, none) s = record s { conf = conf }
  checked timestamp (conf, some errstr) s = complain timestamp errstr (record s { conf = conf })

  -- `kafka_config[key]`
  abbrev setting : Dict Text → Text → Text
  setting kafka_config key = elim (find key kafka_config) [ none ↦ [] | some v ↦ v ]

  abbrev created : Text → Option ℕ × Text → Setup → Setup × Pointer ℕ
  created timestamp (some kafka_producer, errstr) s = (s, address_of kafka_producer)
  created timestamp (none, errstr) s =
      (complain timestamp (codes "Failed to create Kafka producer: " ++ errstr) s, nullptr)

  -- One of the settings by its key.
  unfoldable pub set_from : Text → Text → Dict Text → Setup → Setup
  set_from timestamp key kafka_config s =
      checked timestamp (set key (setting kafka_config key) s.conf) s

  -- `timestamp` is the clock's text at the n-th check.
  unfoldable pub kafka_setup : (ℕ → Text) → Dict Text → SafeQueue Text → Setup × Pointer ℕ
  unfolding set_from
  kafka_setup timestamp kafka_config log_queue =
      let start : Setup = record { conf = new_conf; log_queue = log_queue; interrupts = 0 } in
      let servers = set_from (timestamp 0) (codes "bootstrap.servers") kafka_config start in
      let client = set_from (timestamp 1) (codes "client.id") kafka_config servers in
      let dr_cb = checked (timestamp 2) (set_dr_cb client.conf) client in
      created (timestamp 3) (create_producer dr_cb.conf) dr_cb

  -- A line for each signal, behind those that were there.
  pub record IsReported (log_queue : SafeQueue Text) (s : Setup) : Type 0 where
    pub a_line_each : length s.log_queue ≡ length log_queue + s.interrupts

  complain-IsReported :
      (log_queue : SafeQueue Text) (timestamp message : Text) (s : Setup)
      → IsReported log_queue s
      → IsReported log_queue (complain timestamp message s)
  unfolding log_at enqueue
  complain-IsReported log_queue timestamp message s h = record {
    a_line_each =
        length-append s.log_queue (create_log timestamp message error name ∷ [])
        ∙ omega (arith, h.a_line_each);
  }

  checked-IsReported :
      (log_queue : SafeQueue Text) (timestamp : Text) (answer : Conf × Option Text) (s : Setup)
      → IsReported log_queue s
      → IsReported log_queue (checked timestamp answer s)
  checked-IsReported log_queue timestamp (conf, none) s h = record { a_line_each = h.a_line_each }
  checked-IsReported log_queue timestamp (conf, some errstr) s h =
      complain-IsReported log_queue timestamp errstr (record s { conf = conf })
        (record { a_line_each = h.a_line_each })

  created-IsReported :
      (log_queue : SafeQueue Text) (timestamp : Text) (answer : Option ℕ × Text) (s : Setup)
      → IsReported log_queue s
      → IsReported log_queue (created timestamp answer s).0
        × ((created timestamp answer s).1 ≡ nullptr → 0 < (created timestamp answer s).0.interrupts)
  created-IsReported log_queue timestamp (some kafka_producer, errstr) s h = (h, λ e. cc)
  created-IsReported log_queue timestamp (none, errstr) s h = (
    complain-IsReported log_queue timestamp (codes "Failed to create Kafka producer: " ++ errstr) s
        h,
    λ e. omega arith,
  )

  -- Each failure is a line in the log and a signal, and there is no null producer without one.
  pub kafka_setup-IsReported :
      (timestamp : ℕ → Text) (kafka_config : Dict Text) (log_queue : SafeQueue Text)
      → let r = kafka_setup timestamp kafka_config log_queue in
        IsReported log_queue r.0 × (r.1 ≡ nullptr → 0 < r.0.interrupts)
  unfolding kafka_setup set_from
  kafka_setup-IsReported timestamp kafka_config log_queue =
      let start : Setup = record { conf = new_conf; log_queue = log_queue; interrupts = 0 } in
      let servers = set_from (timestamp 0) (codes "bootstrap.servers") kafka_config start in
      let client = set_from (timestamp 1) (codes "client.id") kafka_config servers in
      let dr_cb = checked (timestamp 2) (set_dr_cb client.conf) client in
      let at_start : IsReported log_queue start = record { a_line_each = omega arith } in
      created-IsReported log_queue (timestamp 3) (create_producer dr_cb.conf) dr_cb (
        checked-IsReported log_queue (timestamp 2) (set_dr_cb client.conf) client (
          checked-IsReported log_queue (timestamp 1)
            (set (codes "client.id") (setting kafka_config (codes "client.id")) servers.conf)
            servers
            (checked-IsReported log_queue (timestamp 0)
              (set (codes "bootstrap.servers") (setting kafka_config (codes "bootstrap.servers"))
                start.conf)
              start at_start)))
