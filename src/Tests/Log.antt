-- ===== src/Tests/Log.antt =====
-- The thread that writes the log, and the file logger, in short runs.
use csv_to_kafka_using_cpp.Prelude.{
  ℕ, ◌+◌, ◌*◌, ◌<◌, true, false, not, List, [], ◌∷◌, ◌++◌, map, all, ◌≡◌, refl, ltb,
}
use csv_to_kafka_using_cpp.Prelude.Text.{Text, codes}
use csv_to_kafka_using_cpp.Prelude.Int.{pos}
use csv_to_kafka_using_cpp.Queue.{enqueue, dequeue, dequeue_with_timeout}
use csv_to_kafka_using_cpp.Logging.{info, debug, create_log, log_at, std_out_logger, file_logger}
use csv_to_kafka_using_cpp.Logging.Drain.{Entry, lines_for}
use csv_to_kafka_using_cpp.Logging.LogProcessor.{
  Shared, not_started, ended, begin, enter, none_active, take, write_line, leave, take_timed,
  write_last, finish, Reaches, start, moves, logs, stop,
}
use csv_to_kafka_using_cpp.Logging.LogProcessor.Account.{Closed}
use csv_to_kafka_using_cpp.Logging.LogProcessor.Written.{ended-Closed}
use csv_to_kafka_using_cpp.Logging.FileLogger.{
  Surroundings, ticks, new_file, log_each, write_each, log_each-write_each,
}
use csv_to_kafka_using_cpp.KafkaPoller.{Delivery, reports, shutdown, run}
use csv_to_kafka_using_cpp.KafkaPoller.Served.{line_of, served, goodbye, run-served}

abbrev hello : Entry
hello = record {
  level = info;
  timestamp = codes "now";
  message = codes "hello";
  name = codes "main";
}

abbrev quiet : Entry
quiet = record {
  level = debug;
  timestamp = codes "now";
  message = codes "quiet";
  name = codes "main";
}

abbrev hello_line : Text
hello_line = create_log (codes "now") (codes "hello") info (codes "main")

abbrev at_first : Shared
at_first = record {
  m_should_run = false;
  active_processors = 0;
  log_queue = [];
  logger = record { sink = std_out_logger; lines = [] };
}

-- One entry is written before `stop`, and one behind it.
closed_run : (t : Shared) × Reaches at_first not_started (hello ∷ quiet ∷ hello ∷ []) t ended
unfolding log_at enqueue dequeue dequeue_with_timeout create_log
closed_run =
    let one = moves (moves (moves (logs start hello) begin) (enter refl)) (none_active refl) in
    let written = moves (moves one (take refl)) write_line in
    let stopped = logs (stop (logs written quiet)) hello in
    let drained = moves (moves (moves stopped (leave [] refl)) take_timed) (write_last refl) in
    (_, moves (moves drained take_timed) (finish []))

ended-Closed_example :
    Closed
      (at_first.logger.lines ++ lines_for (hello ∷ quiet ∷ hello ∷ []))
      closed_run.0.logger.lines
      closed_run.0.log_queue
ended-Closed_example = ended-Closed refl (λ e. cc) closed_run.1

abbrev surroundings : ℕ → Surroundings
surroundings now = record { now = now; now_after = now; opens = true }

abbrev calls : List (Text × Surroundings)
calls =
    (codes "a", surroundings (1000 * ticks))
    ∷ (codes "b", surroundings (1301 * ticks))
    ∷ (codes "c", surroundings (1302 * ticks))
    ∷ []

log_each-write_each_example :
    (300 * ticks < 1000 * ticks
      → (surroundings (1000 * ticks)).opens ≡ true
      → all (λ (c : Text × Surroundings). c.1.opens) calls ≡ true
      → (log_each calls (new_file (codes "log") 300 (surroundings (1000 * ticks)))).file
        ≡ (write_each
            (map (λ (c : Text × Surroundings). c.0) calls)
            (record { sink = file_logger; lines = [] })).lines)
    × (ltb (300 * ticks) (1000 * ticks) ≡ false
        → all (λ (c : Text × Surroundings). not (ltb (300 * ticks) c.1.now)) calls ≡ true
        → (log_each calls (new_file (codes "log") 300 (surroundings (1000 * ticks)))).file ≡ [])
log_each-write_each_example =
    log_each-write_each (codes "log") 300 (surroundings (1000 * ticks)) calls

abbrev delivered : Delivery
delivered = record {
  err = false;
  errstr = [];
  topic_name = codes "a";
  partition = pos 0;
  offset = pos 12;
}

abbrev lost : Delivery
lost = record delivered { err = true; errstr = codes "timed out" }

run-served_example :
    run
      (codes "now")
      (map reports ((delivered ∷ []) ∷ [] ∷ (lost ∷ []) ∷ []) ++ shutdown ∷ [])
      (record { polls = 0; log_queue = [] })
    ≡ (
      record {
        polls = 0 + 3;
        log_queue =
            []
            ++ map (line_of (codes "now")) (served ((delivered ∷ []) ∷ [] ∷ (lost ∷ []) ∷ []))
            ++ goodbye (codes "now") ∷ [];
      },
      true,
    )
run-served_example =
    run-served (codes "now") ((delivered ∷ []) ∷ [] ∷ (lost ∷ []) ∷ []) []
      (record { polls = 0; log_queue = [] })
