-- ===== src/Main/Shutdown/Hangs.antt =====
-- How `main` (src/main.cpp) can fail to return.
use csv_to_kafka_using_cpp.Prelude.{List, [], all, ◌≡◌, ◌≢◌, true, ap}
use csv_to_kafka_using_cpp.Logging.Drain.{Entry}
use csv_to_kafka_using_cpp.Logging.LogProcessor.{dequeuing}
use csv_to_kafka_using_cpp.Logging.LogProcessor.Waits.{no_move}
use csv_to_kafka_using_cpp.Main.Shutdown.{
  finished, joining_log, returned, Program, Thread, poller_thread, kafka_thread, processor_thread,
  IsRunning, is_finished, is_preparing, Step, main_logs, start_kafka, start_poller, start_processor,
  all_started, signal, works, counts, ends, poller_joined, processors_joined, kafka_joined,
  log_stopped, log_moves, log_joined, Reaches, start, step,
}
use csv_to_kafka_using_cpp.Main.Shutdown.Phases.{some_not_finished}

-- `main` joins the log thread, the other threads have finished, and the log thread waits for a line.
pub record Hangs (s : Program) : Type 0 where
  pub joins : s.main ≡ joining_log
  pub poller_over : s.poller ≡ finished
  pub processors_over : all is_finished s.processors ≡ true
  pub kafka_over : s.kafka ≡ finished
  pub dequeues : s.log_pc ≡ dequeuing
  pub no_line : s.log.log_queue ≡ []

none_runs : (s : Program) (t : Thread) → Hangs s → IsRunning s t → ⊥
none_runs s poller_thread h r = let p = h.poller_over in cc
none_runs s kafka_thread h r = let p = h.kafka_over in cc
none_runs s (processor_thread i) h r = some_not_finished s.processors i r h.processors_over

Step-Hangs : {s : Program} {es : List Entry} {t : Program} → Step s es t → Hangs s → Hangs t
Step-Hangs (main_logs m e) h = let p = ap is_preparing h.joins in cc
Step-Hangs (start_kafka m) h = let p = h.joins in cc
Step-Hangs (start_poller m) h = let p = h.joins in cc
Step-Hangs (start_processor m l) h = let p = h.joins in cc
Step-Hangs (all_started m l) h = let p = h.joins in cc
Step-Hangs signal h = record {
  joins = h.joins;
  poller_over = h.poller_over;
  processors_over = h.processors_over;
  kafka_over = h.kafka_over;
  dequeues = h.dequeues;
  no_line = h.no_line;
}
Step-Hangs {s} (works t r e) h = elim (none_runs s t h r) [ ]
Step-Hangs {s} (counts i n r) h = elim (none_runs s (processor_thread i) h r) [ ]
Step-Hangs {s} (ends t r q) h = elim (none_runs s t h r) [ ]
Step-Hangs (poller_joined m p) h = let p = h.joins in cc
Step-Hangs (processors_joined m p) h = let p = h.joins in cc
Step-Hangs (kafka_joined m p) h = let p = h.joins in cc
Step-Hangs (log_stopped m) h = let p = h.joins in cc
Step-Hangs (log_moves m) h = elim (no_move m h.dequeues h.no_line) [ ]
Step-Hangs (log_joined m e) h = let p = h.dequeues in cc

-- If all other threads have finished and the log thread waits in `dequeue` at an empty queue when
-- `main` joins it, `main` never returns, whatever the threads do and whatever signals come: `stop`
-- has set the flag, but the thread does not look at it before the next line, and nobody is left
-- to log one.
pub Reaches-Hangs :
    {s : Program} {es : List Entry} {t : Program} → Reaches s es t → Hangs s → t.main ≢ returned
Reaches-Hangs r h e = let p = (stays r h).joins in cc
  where
    stays : {s : Program} {es : List Entry} {t : Program} → Reaches s es t → Hangs s → Hangs t
    stays start h = h
    stays (step r m) h = Step-Hangs m (stays r h)
