-- ===== src/Tests/Shutdown.antt =====
-- Two runs of the whole program: one that returns, and one that does not.
use csv_to_kafka_using_cpp.Prelude.{false, [], ◌∷◌, ◌++◌, ◌≡◌, ◌≢◌, refl, arith}
use csv_to_kafka_using_cpp.Prelude.Text.{codes}
use csv_to_kafka_using_cpp.Queue.{enqueue, dequeue, dequeue_with_timeout}
use csv_to_kafka_using_cpp.Logging.{info, create_log, log_at, std_out_logger}
use csv_to_kafka_using_cpp.Logging.Drain.{Entry, lines_for}
use csv_to_kafka_using_cpp.Logging.LogProcessor.{
  Shared, begin, enter, none_active, take, write_line, leave, take_timed, finish,
}
use csv_to_kafka_using_cpp.Main.Shutdown.{
  idle, Program, poller_thread, kafka_thread, processor_thread, returned, start_kafka, start_poller,
  start_processor, all_started, signal, works, ends, poller_joined, processors_joined, kafka_joined,
  log_stopped, log_moves, log_joined, Reaches, start, step, at_start,
}
use csv_to_kafka_using_cpp.Main.Shutdown.Returns.{IsOver, returned-IsOver}
use csv_to_kafka_using_cpp.Main.Shutdown.Hangs.{Hangs, Reaches-Hangs}

abbrev log : Shared
log = record {
  m_should_run = false;
  active_processors = 0;
  log_queue = [];
  logger = record { sink = std_out_logger; lines = [] };
}

abbrev bye : Entry
bye = record {
  level = info;
  timestamp = codes "now";
  message = codes "Shutting down";
  name = codes "KafkaPoller";
}

abbrev first : Program
first = at_start (idle ∷ []) log

-- The threads are started, the log thread reaches `wait_for`, and a signal comes.
signalled : (t : Program) × Reaches first [] t
signalled =
    let two = step (step start (start_kafka refl)) (start_poller refl) in
    let threads = step (step two (start_processor refl (omega arith))) (all_started refl refl) in
    let log_runs = step (step threads (log_moves begin)) (log_moves (enter refl)) in
    (_, step log_runs signal)

-- All but `main` and the log thread end, and the log thread writes the last line.
last_line : (t : Program) × Reaches first (bye ∷ []) t
unfolding signalled log_at enqueue dequeue create_log
last_line =
    let polled = step (step signalled.1 (ends poller_thread refl refl)) (poller_joined refl refl) in
    let processed =
      step (step polled (ends (processor_thread 0) refl refl)) (processors_joined refl refl) in
    let said = step (step processed (works kafka_thread refl bye)) (ends kafka_thread refl refl) in
    let served = step said (kafka_joined refl refl) in
    let taken = step (step served (log_moves (none_active refl))) (log_moves (take refl)) in
    (_, step taken (log_moves write_line))

-- It tests its flag again behind `stop`.
returns : (t : Program) × Reaches first (bye ∷ []) t × (t.main ≡ returned)
unfolding last_line signalled log_at enqueue dequeue dequeue_with_timeout create_log
returns =
    let stopped = step (step last_line.1 (log_stopped refl)) (log_moves (leave [] refl)) in
    let drained = step (step stopped (log_moves take_timed)) (log_moves (finish [])) in
    (_, step drained (log_joined refl refl), refl)

returned-IsOver_example : IsOver (log.logger.lines ++ lines_for (bye ∷ [])) returns.0
returned-IsOver_example = returned-IsOver refl (λ e. cc) returns.1 returns.2

-- It is back in `dequeue` before `stop`.
hangs : (t : Program) × Reaches first (bye ∷ []) t × Hangs t
unfolding last_line signalled log_at enqueue dequeue create_log
hangs =
    let waits = step (step last_line.1 (log_moves (enter refl))) (log_moves (none_active refl)) in
    (
      _,
      step waits (log_stopped refl),
      record {
        joins = refl;
        poller_over = refl;
        processors_over = refl;
        kafka_over = refl;
        dequeues = refl;
        no_line = refl;
      },
    )

Reaches-Hangs_example : hangs.0.main ≢ returned
Reaches-Hangs_example = Reaches-Hangs start hangs.2
