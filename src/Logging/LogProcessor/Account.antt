-- ===== src/Logging/LogProcessor/Account.antt =====
-- Where the lines are that were handed to `LogProcessor` (src/logging/LogProcessor.cpp), and how its
-- thread moves them.
pub mod Moves
use csv_to_kafka_using_cpp.Prelude.{
  ℕ, Bool, true, false, not, some, List, [], ◌∷◌, ◌++◌, ◌≡◌, ◌≢◌, refl, ap, subst, sym, ◌∙◌, arith,
  all, is_empty, append_assoc,
}
use csv_to_kafka_using_cpp.Prelude.Text.{Text, codes}
use csv_to_kafka_using_cpp.Queue.{SafeQueue, dequeue, dequeue_with_timeout, queue_size}
use csv_to_kafka_using_cpp.Logging.{
  info, create_log, base_logger, Logger, write, write_level, write_named,
}
use csv_to_kafka_using_cpp.Logging.Drain.{write_lines}
use csv_to_kafka_using_cpp.Logging.LogProcessor.{
  Shared, Pc, logging, draining, checking, ended, name, shutdown_requested, Move, begin, enter,
  none_active, hour_over, take, write_line, leave, take_timed, write_last, finish,
}

abbrev pub is_line : Text → Bool
is_line t = not (is_empty t)

-- The message that the second loop tests, if it is one.
abbrev pub held : Text → List Text
held [] = []
held (c ∷ msg) = (c ∷ msg) ∷ []

-- The lines of the log, with the thread's own between `before` and `after`, and the lines that wait
-- are `handed` all together.
pub record Closing (handed lines waits : List Text) : Type 0 where
  pub before : List Text
  pub after : List Text
  pub timestamp : Text
  pub remaining : ℕ
  pub split :
      lines ≡ before ++ create_log timestamp (shutdown_requested remaining) info name ∷ after
  pub kept : before ++ (after ++ waits) ≡ handed

-- The log of a thread that has ended.
pub record Closed (handed lines waits : List Text) : Type 0 where
  pub front : List Text
  pub last_timestamp : Text
  pub closing : Closing handed front waits
  pub whole : lines ≡ front ++ create_log last_timestamp (codes "Shutting down") info name ∷ []

-- For each place where the thread stands, where the lines are that were `handed` to the log.
abbrev pub Accounts : List Text → Shared → Pc → Type 0
Accounts handed s (logging message) = s.logger.lines ++ message ∷ s.log_queue ≡ handed
Accounts handed s draining = Closing handed s.logger.lines s.log_queue
Accounts handed s (checking msg) = Closing handed s.logger.lines (held msg ++ s.log_queue)
Accounts handed s ended = Closed handed s.logger.lines s.log_queue
Accounts handed s _ = s.logger.lines ++ s.log_queue ≡ handed

pub record Inv (handed : List Text) (s : Shared) (p : Pc) : Type 0 where
  pub writes : s.logger.sink ≢ base_logger
  pub no_empty : all is_line s.log_queue ≡ true
  pub accounts : Accounts handed s p
