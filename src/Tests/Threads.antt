-- ===== src/Tests/Threads.antt =====
-- The poller, the queue, the workers, the log and the start of the program at concrete inputs.
use csv_to_kafka_using_cpp.Prelude.{
  ℕ, ◌+◌, ◌≤◌, Bool-cases, inl, inr, subst, sym, ◌-◌, ◌^◌, ◌<◌, Bool, true, false, Option, none,
  some, List, [], ◌∷◌, ◌++◌, map, ◌≡◌, ◌↔◌, refl, arith, ◌==◌, if◌then◌else◌, is_empty,
}
use csv_to_kafka_using_cpp.Prelude.Text.{Text, codes, text_eq, text_eq_iff}
use csv_to_kafka_using_cpp.Prelude.Int.{pos, negsuc}
use csv_to_kafka_using_cpp.Prelude.Result.{ok}
use csv_to_kafka_using_cpp.Queue.Fifo.{
  Call, enqueue_of, dequeue_of, timeout_of, run_calls, put_in, run_calls_fifo,
}
use csv_to_kafka_using_cpp.Processor.Builder.{address_of, CsvProcessorBuilder, CsvProcessor, build}
use csv_to_kafka_using_cpp.Processor.Builder.Complete.{Matches, build_iff}
use csv_to_kafka_using_cpp.Poller.{PollResult, DirectoryPoller, Event, Inotify, poll}
use csv_to_kafka_using_cpp.Poller.Pending.{available, taken, poll-taken}
use csv_to_kafka_using_cpp.Poller.MacOs.{MacPoller, Kqueue, vnode, note_write, mac_poll}
use csv_to_kafka_using_cpp.Poller.MacOs.Added.{
  count, is_new, mac_available, note_write_new, mac_poll-taken,
}
use csv_to_kafka_using_cpp.Workers.Delivery.{
  Running, handled, start, turn, poller_turn, processor_turn, after_poller, after_processor,
  polled_paths,
}
use csv_to_kafka_using_cpp.Workers.{csv_handle}
use csv_to_kafka_using_cpp.Processor.State.{Outcome}
use csv_to_kafka_using_cpp.Processor.Handle.{Site}
use csv_to_kafka_using_cpp.Logging.{info, debug, Logger, std_out_logger, drain}
use csv_to_kafka_using_cpp.Logging.Drain.{Entry, log_all, lines_for, drain-log_all}
use csv_to_kafka_using_cpp.Main.{
  Argument, option_d, option_c, Settings, parse_args, processor_thread_count,
}
use csv_to_kafka_using_cpp.Main.Startup.{AreUsable, parse_args_iff, processor_thread_count_cases}
use csv_to_kafka_using_cpp.Tests.Instances.{library}
use csv_to_kafka_using_cpp.Tests.Files.{site}

abbrev calls : List (Call ℕ)
calls = enqueue_of 1 ∷ timeout_of 0 ∷ enqueue_of 2 ∷ enqueue_of 3 ∷ dequeue_of ∷ []

run_calls_fifo_example : (run_calls calls []).0 ++ (run_calls calls []).1 ≡ [] ++ put_in calls
run_calls_fifo_example = run_calls_fifo calls []

abbrev closed : Text → Event
closed name = record { name = some name; in_create = false; in_close = true; in_isdir = false }

abbrev system : Inotify
system = record {
  fd = pos 3;
  wd = pos 1;
  events = closed (codes "a.csv") ∷ closed (codes "b.csv_done") ∷ closed (codes "c.csv") ∷ [];
}

abbrev idle : DirectoryPoller
idle = record { m_dir_to_watch = codes "in"; m_file_paths = []; m_fd = negsuc 0; m_wd = negsuc 0 }

poll-taken_example :
    ((poll idle system).0.m_file_paths ++ taken (available idle system) (poll idle system).1
      ≡ available idle system)
    × (is_empty (available idle system) ≡ true → (poll idle system).1.m_result ≡ [])
poll-taken_example = poll-taken idle system

abbrev mac_idle : MacPoller
mac_idle = record {
  m_file_paths = [];
  m_last_files = codes "in/a.csv" ∷ [];
  m_kq = negsuc 0;
  m_fd = negsuc 0;
}

abbrev written : Kqueue
written = record {
  kq = pos 3;
  fd = pos 4;
  event = vnode true;
  files = codes "in/a.csv" ∷ codes "in/b.csv" ∷ codes "in/c.csv_done" ∷ [];
}

written_once : (f : Text) → count f written.files ≤ 1
unfolding text_eq
written_once f = elim (Bool-cases (text_eq f (codes "in/a.csv"))) [
  | inl e ↦ subst (λ g. count g written.files ≤ 1) (sym ((text_eq_iff f _).0 e)) (omega arith)
  | inr a ↦ elim (Bool-cases (text_eq f (codes "in/b.csv"))) [
    | inl e ↦ subst (λ g. count g written.files ≤ 1) (sym ((text_eq_iff f _).0 e)) (omega arith)
    | inr b ↦ rw (a, b) (ground arith)
  ]
]

note_write_new_example :
    ((f : Text)
      → count f (note_write mac_idle written.files).m_file_paths
        ≡ count f mac_idle.m_file_paths
          + (if is_new mac_idle.m_last_files written.files f then 1 else 0))
    × (note_write (note_write mac_idle written.files) written.files
        ≡ note_write mac_idle written.files)
note_write_new_example = note_write_new mac_idle written.files written_once

mac_poll-taken_example :
    ((mac_poll mac_idle written).0.m_file_paths
        ++ taken (mac_available mac_idle written) (mac_poll mac_idle written).1
      ≡ mac_available mac_idle written)
    × (is_empty (mac_available mac_idle written) ≡ true
        → (mac_poll mac_idle written).1.m_result ≡ [])
mac_poll-taken_example = mac_poll-taken mac_idle written

abbrev csv : PollResult → Site library → Site library × Outcome (Unit {0})
csv = csv_handle library []

abbrev before : Running (Site library)
before = record {
  connector = record { m_poller = idle; m_queue = []; site = (site, []) };
  polled = [];
}

abbrev polled_once : Running (Site library)
polled_once = after_poller csv before system

abbrev handled_once : Running (Site library)
handled_once = after_processor csv polled_once

polled_paths_example :
    handled handled_once ++ map (λ (r : PollResult). r.m_result) handled_once.connector.m_queue
    ≡ handled_once.polled
polled_paths_example =
    polled_paths csv before handled_once refl refl refl
      (turn (turn start (poller_turn before system)) (processor_turn polled_once))

abbrev entries : List Entry
entries =
    record { level = info; timestamp = codes "now"; message = codes "hello"; name = codes "main" }
    ∷ record {
      level = debug;
      timestamp = codes "now";
      message = codes "quiet";
      name = codes "main";
    }
    ∷ []

abbrev logger : Logger
logger = record { sink = std_out_logger; lines = [] }

drain-log_all_example :
    drain 5 (log_all entries []) logger
    ≡ some ([], record logger { lines = logger.lines ++ lines_for entries })
drain-log_all_example = drain-log_all entries logger 5 (λ e. cc) (omega arith)

abbrev processor : CsvProcessor ℕ
processor = record {
  name = codes "CsvProcessor 1";
  sig_channel = 1;
  transformers = 2;
  active_processors = 3;
  log_cv = 4;
  log_cv_mutex = 5;
  kafka_producer = 6;
  schemas = (codes "a", 0) ∷ [];
  max_age_config = address_of 7;
}

abbrev filled : CsvProcessorBuilder ℕ
filled = record {
  m_name = codes "CsvProcessor 1";
  m_transformers = address_of 2;
  m_active_processors = address_of 3;
  m_log_cv = address_of 4;
  m_log_cv_mutex = address_of 5;
  m_kafka_producer = address_of 6;
  m_sig_channel = some 1;
  m_schemas = address_of ((codes "a", 0) ∷ []);
  m_max_age = address_of 7;
}

build_iff_example : (build filled ≡ ok processor) ↔ Matches filled processor
build_iff_example = build_iff filled processor

abbrev is_slash : Text → Bool
is_slash [] = false
is_slash (c ∷ cs) = c == b'/'

-- A directory, and a regular file.
abbrev stat : Text → Option ℕ
stat path = if is_empty path then none else if is_slash path then some 16877 else some 33188

abbrev arguments : List Argument
arguments = option_d (codes "/") ∷ option_c (codes "a.yaml") ∷ []

abbrev settings : Settings
settings = record { config_file = codes "a.yaml"; dir_to_watch = codes "/" }

parse_args_iff_example :
    (parse_args stat arguments ≡ some settings) ↔ AreUsable stat arguments settings
parse_args_iff_example = parse_args_iff stat arguments settings

processor_thread_count_cases_example :
    (5 < 8 → processor_thread_count 8 ≡ 8 - 5)
    × (◌≡◌ {A = ℕ} 8 5 → processor_thread_count 8 ≡ 1)
    × (8 < 5 → processor_thread_count 8 ≡ 2 ^ 32 - (5 - 8))
processor_thread_count_cases_example = processor_thread_count_cases 8 (omega arith)
