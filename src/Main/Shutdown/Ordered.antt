-- ===== src/Main/Shutdown/Ordered.antt =====
-- The threads of `main` (src/main.cpp) end in their order, and the log thread is the last.
pub mod ByThreads
pub mod ByMain
use csv_to_kafka_using_cpp.Prelude.{
  ℕ, suc, ◌≤◌, ◌<◌, true, false, List, [], all, ◌≡◌, inl, inr, refl, sym, ap, ◌∙◌, arith, le_or_lt,
}
use csv_to_kafka_using_cpp.Logging.Drain.{Entry}
use csv_to_kafka_using_cpp.Logging.LogProcessor.{
  Shared, Pc, not_started, testing, waiting, dequeuing, logging, draining, checking, ended, Move,
}
use csv_to_kafka_using_cpp.Logging.LogProcessor.Account.{is_line}
use csv_to_kafka_using_cpp.Main.Shutdown.{
  Stage, finished, MainPc, stopping_log, joining_log, Program, Thread, poller_thread, kafka_thread,
  processor_thread, IsRunning, finish_thread, is_finished, signal_received, logged, at_start,
}
use csv_to_kafka_using_cpp.Main.Shutdown.Phases.{
  rank, is_late, is_started, is_quiet, Move-late, Move-started, Move-quiet, ended_stays,
  some_not_finished, finished_after_set,
}

-- `main` goes on when the threads that it joins have finished, and the log thread outlives them.
pub record Ordered (s : Program) : Type 0 where
  pub poller_first : 4 ≤ rank s.main → s.poller ≡ finished
  pub processors_next : 5 ≤ rank s.main → all is_finished s.processors ≡ true
  pub kafka_last : 6 ≤ rank s.main → s.kafka ≡ finished
  pub requested : s.poller ≡ finished → s.m_shutdown_requested ≡ true
  pub late : is_late s.log_pc ≡ true → 7 ≤ rank s.main
  pub runs : rank s.main ≤ 6 → is_started s.log_pc ≡ true → s.log.m_should_run ≡ true
  pub quiet : is_quiet s.log_pc ≡ true → s.log.log_queue ≡ []
  pub over : 8 ≤ rank s.main → s.log_pc ≡ ended

pub quiet_late : (p : Pc) → is_quiet p ≡ true → is_late p ≡ true
quiet_late (checking msg) h = refl
quiet_late ended h = refl
quiet_late not_started h = cc
quiet_late testing h = cc
quiet_late waiting h = cc
quiet_late dequeuing h = cc
quiet_late (logging m) h = cc
quiet_late draining h = cc

-- While a thread runs, `main` has not stopped the log.
pub running_early : (s : Program) (t : Thread) → Ordered s → IsRunning s t → rank s.main ≤ 6
running_early s t o r = elim (le_or_lt (rank s.main) 6) [
  | inl early ↦ early
  | inr after ↦ elim (never t r after) [ ]
]
  where
    never : (t : Thread) → IsRunning s t → 6 < rank s.main → ⊥
    never poller_thread r a = let p = o.poller_first (omega (arith, a)) in cc
    never kafka_thread r a = let p = o.kafka_last (omega (arith, a)) in cc
    never (processor_thread i) r a =
        some_not_finished s.processors i r (o.processors_next (omega (arith, a)))
