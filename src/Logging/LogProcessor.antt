-- ===== src/Logging/LogProcessor.antt =====
-- `LogProcessor::run` (src/logging/LogProcessor.cpp): the thread that writes the log, a shared access
-- at a time, among the other threads.
pub mod Account
pub mod Written
pub mod Waits
use csv_to_kafka_using_cpp.Prelude.{ℕ, Bool, true, false, some, List, [], ◌∷◌, ◌++◌, ◌≡◌, is_empty}
use csv_to_kafka_using_cpp.Prelude.Text.{Text, codes}
use csv_to_kafka_using_cpp.Prelude.Decimal.{decimal}
use csv_to_kafka_using_cpp.Queue.{SafeQueue, dequeue, dequeue_with_timeout, queue_size}
use csv_to_kafka_using_cpp.Logging.{info, log_at, Logger, write, write_level, write_named}
use csv_to_kafka_using_cpp.Logging.Drain.{Entry}

-- What the thread shares with the others: its flag, the counter of the processors, the queue. No
-- other thread uses the logger.
pub record Shared : Type 0 where
  pub m_should_run : Bool
  pub active_processors : ℕ
  pub log_queue : SafeQueue Text
  pub logger : Logger

-- Where the thread stands, with the local variable that is live there.
pub data Pc : Type 0 where
  not_started : Pc  -- before the first statement of `run`
  testing : Pc  -- head of the first loop
  waiting : Pc  -- in `wait_for`
  dequeuing : Pc  -- in `dequeue`
  logging : (message : Text) → Pc
  draining : Pc  -- before `dequeue_with_timeout`
  checking : (msg : Text) → Pc  -- head of the second loop
  ended : Pc

abbrev pub name : Text
name = codes "LogProcessor"

unfoldable pub shutdown_requested : ℕ → Text
shutdown_requested size =
    codes "Shutdown requested. Processing remaining " ++ decimal size ++ codes " messages..."

-- One step of the thread. `wait_for` ends when no processor is active, or after an hour.
pub data Move (s : Shared) : Pc → Shared → Pc → Type 0 where
  begin : Move s not_started (record s { m_should_run = true }) testing
  enter : s.m_should_run ≡ true → Move s testing s waiting
  none_active : s.active_processors ≡ 0 → Move s waiting s dequeuing
  hour_over : Move s waiting s dequeuing
  take :
      {message : Text} {rest : SafeQueue Text}
      → dequeue s.log_queue ≡ some (message, rest)
      → Move s dequeuing (record s { log_queue = rest }) (logging message)
  write_line :
      {message : Text}
      → Move s (logging message) (record s { logger = write message s.logger }) testing
  leave :
      (timestamp : Text)
      → s.m_should_run ≡ false
      → Move s testing
          (record s {
            logger =
                write_named timestamp
                  (shutdown_requested (queue_size s.log_queue))
                  info
                  name
                  s.logger;
          })
          draining
  take_timed :
      Move s draining
        (record s { log_queue = (dequeue_with_timeout s.log_queue []).1 })
        (checking (dequeue_with_timeout s.log_queue []).0)
  write_last :
      {msg : Text}
      → is_empty msg ≡ false
      → Move s (checking msg) (record s { logger = write_level msg info s.logger }) draining
  finish :
      (timestamp : Text)
      → Move s
          (checking [])
          (record s { logger = write_named timestamp (codes "Shutting down") info name s.logger })
          ended

-- What the thread and the others do, in any order. The list has the calls of the logging functions by
-- the others.
pub data Reaches (s : Shared) (p : Pc) : List Entry → Shared → Pc → Type 0 where
  start : Reaches s p [] s p
  moves :
      {es : List Entry} {t u : Shared} {q r : Pc}
      → Reaches s p es t q
      → Move t q u r
      → Reaches s p es u r
  logs :
      {es : List Entry} {t : Shared} {q : Pc}
      → Reaches s p es t q
      → (e : Entry)
      → Reaches s p
          (es ++ e ∷ [])
          (record t { log_queue = log_at e.level e.timestamp e.message e.name t.log_queue })
          q
  stop :
      {es : List Entry} {t : Shared} {q : Pc}
      → Reaches s p es t q
      → Reaches s p es (record t { m_should_run = false }) q
  counts :
      {es : List Entry} {t : Shared} {q : Pc}
      → Reaches s p es t q
      → (n : ℕ) → Reaches s p es (record t { active_processors = n }) q
