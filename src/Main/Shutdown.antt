-- ===== src/Main/Shutdown.antt =====
-- `main` (src/main.cpp) from the creation of the log thread to its return, with all threads of the
-- program. A step is one access to what they share; the joins of the processors, one after the other,
-- are one step, which waits for all.
pub mod Phases
pub mod Ordered
pub mod Sound
pub mod Returns
pub mod Hangs
use csv_to_kafka_using_cpp.Prelude.{
  ℕ, ◌+◌, ◌<◌, Bool, true, false, some, List, [], ◌∷◌, ◌++◌, all, set, get_elem?, length, ◌≡◌,
}
use csv_to_kafka_using_cpp.Prelude.Text.{Text}
use csv_to_kafka_using_cpp.Logging.{log_at}
use csv_to_kafka_using_cpp.Logging.Drain.{Entry}
use csv_to_kafka_using_cpp.Logging.LogProcessor.{Shared, Pc, not_started, ended, Move}

-- A thread with the loop of `AbstractWorker::run` or `KafkaPoller::run`.
pub data Stage : Type 0 where
  idle running finished : Stage

-- Where `main` stands.
pub data MainPc : Type 0 where
  preparing : MainPc  -- before `kafka_poller.start`
  building : MainPc  -- before `m_poller.start` in `Connector::start`
  starting_processors : (i : ℕ) → MainPc  -- the loop behind it
  joining_poller joining_processors : MainPc  -- in `Connector::start`
  joining_kafka : MainPc
  stopping_log joining_log : MainPc
  returned : MainPc

-- The threads of the program; `log` and `log_pc` are those of `LogProcessor`.
pub record Program : Type 0 where
  pub main : MainPc
  pub m_shutdown_requested : Bool
  pub poller : Stage
  pub processors : List Stage
  pub kafka : Stage
  pub log : Shared
  pub log_pc : Pc

pub data Thread : Type 0 where
  poller_thread kafka_thread : Thread
  processor_thread : ℕ → Thread

abbrev pub IsRunning : Program → Thread → Type 0
IsRunning s poller_thread = s.poller ≡ running
IsRunning s kafka_thread = s.kafka ≡ running
IsRunning s (processor_thread i) = get_elem? s.processors i ≡ some running

abbrev pub finish_thread : Thread → Program → Program
finish_thread poller_thread s = record s { poller = finished }
finish_thread kafka_thread s = record s { kafka = finished }
finish_thread (processor_thread i) s = record s { processors = set s.processors i finished }

-- `main` itself logs up to the start of the poller.
abbrev pub is_preparing : MainPc → Bool
is_preparing preparing = true
is_preparing building = true
is_preparing _ = false

abbrev pub is_finished : Stage → Bool
is_finished finished = true
is_finished _ = false

-- One call of a logging function, by any thread.
abbrev pub logged : Entry → Program → Program
logged e s = record s {
  log = record (s.log) { log_queue = log_at e.level e.timestamp e.message e.name s.log.log_queue };
}

-- The thread of `listen_for_sigint`, behind `sigwait`.
abbrev pub signal_received : Program → Program
signal_received s = record s { m_shutdown_requested = true }

-- One step of a thread, with the calls of the logging functions in it. The loops of the workers end
-- once a shutdown is requested; before their end they log what they like.
pub data Step (s : Program) : List Entry → Program → Type 0 where
  main_logs : is_preparing s.main ≡ true → (e : Entry) → Step s (e ∷ []) (logged e s)
  start_kafka : s.main ≡ preparing → Step s [] (record s { main = building; kafka = running })
  start_poller :
      s.main ≡ building → Step s [] (record s { main = starting_processors 0; poller = running })
  start_processor :
      {i : ℕ}
      → s.main ≡ starting_processors i
      → i < length s.processors
      → Step s []
          (record s { main = starting_processors (i + 1); processors = set s.processors i running })
  all_started :
      {i : ℕ}
      → s.main ≡ starting_processors i
      → i ≡ length s.processors
      → Step s [] (record s { main = joining_poller })
  signal : Step s [] (signal_received s)
  works : (t : Thread) → IsRunning s t → (e : Entry) → Step s (e ∷ []) (logged e s)
  counts :
      (i n : ℕ)
      → IsRunning s (processor_thread i)
      → Step s [] (record s { log = record (s.log) { active_processors = n } })
  ends :
      (t : Thread) → IsRunning s t → s.m_shutdown_requested ≡ true → Step s [] (finish_thread t s)
  poller_joined :
      s.main ≡ joining_poller
      → s.poller ≡ finished
      → Step s [] (record s { main = joining_processors })
  processors_joined :
      s.main ≡ joining_processors
      → all is_finished s.processors ≡ true
      → Step s [] (record s { main = joining_kafka })
  kafka_joined :
      s.main ≡ joining_kafka → s.kafka ≡ finished → Step s [] (record s { main = stopping_log })
  log_stopped :
      s.main ≡ stopping_log
      → Step s [] (record s { main = joining_log; log = record (s.log) { m_should_run = false } })
  log_moves :
      {log : Shared} {log_pc : Pc}
      → Move s.log s.log_pc log log_pc
      → Step s [] (record s { log = log; log_pc = log_pc })
  log_joined : s.main ≡ joining_log → s.log_pc ≡ ended → Step s [] (record s { main = returned })

pub data Reaches (s : Program) : List Entry → Program → Type 0 where
  start : Reaches s [] s
  step :
      {es fs : List Entry} {t u : Program} → Reaches s es t → Step t fs u → Reaches s (es ++ fs) u

-- `main` as its log thread is created.
abbrev pub at_start : List Stage → Shared → Program
at_start processors log = record {
  main = preparing;
  m_shutdown_requested = false;
  poller = idle;
  processors = processors;
  kafka = idle;
  log = log;
  log_pc = not_started;
}
