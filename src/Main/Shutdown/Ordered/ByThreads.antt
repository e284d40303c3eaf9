-- ===== src/Main/Shutdown/Ordered/ByThreads.antt =====
-- The threads that `main` (src/main.cpp) has started keep the order.
use csv_to_kafka_using_cpp.Prelude.{ℕ, ◌≤◌, true, all, ◌≡◌, inl, inr, refl, arith, le_or_lt}
use csv_to_kafka_using_cpp.Logging.Drain.{Entry}
use csv_to_kafka_using_cpp.Logging.LogProcessor.{Shared, Pc, Move}
use csv_to_kafka_using_cpp.Logging.LogProcessor.Account.{is_line}
use csv_to_kafka_using_cpp.Main.Shutdown.{
  Program, Thread, poller_thread, kafka_thread, processor_thread, finish_thread, signal_received,
  logged,
}
use csv_to_kafka_using_cpp.Main.Shutdown.Phases.{
  rank, Move-late, Move-started, Move-quiet, ended_stays, finished_after_set,
}
use csv_to_kafka_using_cpp.Main.Shutdown.Ordered.{Ordered, quiet_late}

-- What is logged early reaches a log that is not late.
pub logged-Ordered : (s : Program) (e : Entry) → Ordered s → rank s.main ≤ 6 → Ordered (logged e s)
logged-Ordered s e o early = record {
  poller_first = o.poller_first;
  processors_next = o.processors_next;
  kafka_last = o.kafka_last;
  requested = o.requested;
  late = o.late;
  runs = o.runs;
  quiet = λ q. let no : ⊥ = omega (arith, early, o.late (quiet_late s.log_pc q)) in elim no [ ];
  over = o.over;
}

pub finish_thread-Ordered :
    (s : Program) (t : Thread)
    → Ordered s
    → s.m_shutdown_requested ≡ true
    → Ordered (finish_thread t s)
finish_thread-Ordered s poller_thread o h = record {
  poller_first = λ r. refl;
  processors_next = o.processors_next;
  kafka_last = o.kafka_last;
  requested = λ e. h;
  late = o.late;
  runs = o.runs;
  quiet = o.quiet;
  over = o.over;
}
finish_thread-Ordered s kafka_thread o h = record {
  poller_first = o.poller_first;
  processors_next = o.processors_next;
  kafka_last = λ r. refl;
  requested = o.requested;
  late = o.late;
  runs = o.runs;
  quiet = o.quiet;
  over = o.over;
}
finish_thread-Ordered s (processor_thread i) o h = record {
  poller_first = o.poller_first;
  processors_next = λ r. finished_after_set s.processors i (o.processors_next r);
  kafka_last = o.kafka_last;
  requested = o.requested;
  late = o.late;
  runs = o.runs;
  quiet = o.quiet;
  over = o.over;
}

pub signal-Ordered : (s : Program) → Ordered s → Ordered (signal_received s)
signal-Ordered s o = record {
  poller_first = o.poller_first;
  processors_next = o.processors_next;
  kafka_last = o.kafka_last;
  requested = λ e. refl;
  late = o.late;
  runs = o.runs;
  quiet = o.quiet;
  over = o.over;
}

pub counts-Ordered :
    (s : Program) (n : ℕ)
    → Ordered s
    → Ordered (record s { log = record (s.log) { active_processors = n } })
counts-Ordered s n o = record {
  poller_first = o.poller_first;
  processors_next = o.processors_next;
  kafka_last = o.kafka_last;
  requested = o.requested;
  late = o.late;
  runs = o.runs;
  quiet = o.quiet;
  over = o.over;
}

pub log_moves-Ordered :
    (s : Program) (log : Shared) (log_pc : Pc)
    → Ordered s
    → all is_line s.log.log_queue ≡ true
    → Move s.log s.log_pc log log_pc
    → Ordered (record s { log = log; log_pc = log_pc })
log_moves-Ordered s log log_pc o lines m = record {
  poller_first = o.poller_first;
  processors_next = o.processors_next;
  kafka_last = o.kafka_last;
  requested = o.requested;
  late = λ l. elim (Move-late m l) [
    | inl before ↦ o.late before
    | inr (off, st) ↦ elim (le_or_lt 7 (rank s.main)) [
      | inl five ↦ five
      | inr few ↦ let on = o.runs (omega (arith, few)) st in cc
    ]
  ];
  runs = λ r st. Move-started m (o.runs r);
  quiet = Move-quiet m lines o.quiet;
  over = λ r. elim (ended_stays m (o.over r)) [ ];
}
