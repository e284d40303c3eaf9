-- ===== src/Main/Shutdown/Ordered/ByMain.antt =====
-- `main` (src/main.cpp) itself keeps the order in which its threads end.
use csv_to_kafka_using_cpp.Prelude.{
  suc, ◌≤◌, true, false, List, all, ◌≡◌, inl, inr, sym, ap, ◌∙◌, arith, le_or_lt,
}
use csv_to_kafka_using_cpp.Logging.LogProcessor.{Shared, ended}
use csv_to_kafka_using_cpp.Main.Shutdown.{
  Stage, finished, MainPc, stopping_log, joining_log, Program, is_finished, at_start,
}
use csv_to_kafka_using_cpp.Main.Shutdown.Phases.{rank, is_late, is_started, is_quiet}
use csv_to_kafka_using_cpp.Main.Shutdown.Ordered.{Ordered}

-- Before `main` stops the log, whatever else changes.
pub early_Ordered :
    (s t : Program)
    → Ordered s
    → rank s.main ≤ 2
    → rank t.main ≤ 2
    → (t.poller ≡ finished → t.m_shutdown_requested ≡ true)
    → t.log_pc ≡ s.log_pc
    → t.log ≡ s.log
    → Ordered t
early_Ordered s t o early one p pc log = record {
  poller_first = λ r. let no : ⊥ = omega (arith, r, one) in elim no [ ];
  processors_next = λ r. let no : ⊥ = omega (arith, r, one) in elim no [ ];
  kafka_last = λ r. let no : ⊥ = omega (arith, r, one) in elim no [ ];
  requested = p;
  late = λ l. let no : ⊥ = omega (arith, early, o.late (ap is_late (sym pc) ∙ l)) in elim no [ ];
  runs = λ r st.
      ap (λ (x : Shared). x.m_should_run) log
      ∙ o.runs (omega (arith, early)) (ap is_started (sym pc) ∙ st);
  quiet = λ q. ap (λ (x : Shared). x.log_queue) log ∙ o.quiet (ap is_quiet (sym pc) ∙ q);
  over = λ r. let no : ⊥ = omega (arith, r, one) in elim no [ ];
}

-- `main` goes on by one.
pub main_on :
    (s : Program) (m : MainPc)
    → Ordered s
    → rank m ≡ suc (rank s.main)
    → (rank m ≡ 4 → s.poller ≡ finished)
    → (rank m ≡ 5 → all is_finished s.processors ≡ true)
    → (rank m ≡ 6 → s.kafka ≡ finished)
    → (rank m ≡ 8 → s.log_pc ≡ ended)
    → Ordered (record s { main = m })
main_on s m o next two three four six = record {
  poller_first = λ r. elim (le_or_lt 4 (rank s.main)) [
    | inl before ↦ o.poller_first before
    | inr now ↦ two (omega (arith, r, now, next))
  ];
  processors_next = λ r. elim (le_or_lt 5 (rank s.main)) [
    | inl before ↦ o.processors_next before
    | inr now ↦ three (omega (arith, r, now, next))
  ];
  kafka_last = λ r. elim (le_or_lt 6 (rank s.main)) [
    | inl before ↦ o.kafka_last before
    | inr now ↦ four (omega (arith, r, now, next))
  ];
  requested = o.requested;
  late = λ l. omega (arith, next, o.late l);
  runs = λ r. o.runs (omega (arith, r, next));
  quiet = o.quiet;
  over = λ r. elim (le_or_lt 8 (rank s.main)) [
    | inl before ↦ o.over before
    | inr now ↦ six (omega (arith, r, now, next))
  ];
}

pub log_stopped-Ordered :
    (s : Program)
    → Ordered s
    → s.main ≡ stopping_log
    → Ordered (record s { main = joining_log; log = record (s.log) { m_should_run = false } })
log_stopped-Ordered s o e =
    let six : rank s.main ≡ 6 = ap rank e in
    record {
      poller_first = λ r. o.poller_first (omega (arith, six));
      processors_next = λ r. o.processors_next (omega (arith, six));
      kafka_last = λ r. o.kafka_last (omega (arith, six));
      requested = o.requested;
      late = λ l. omega arith;
      runs = λ r. let no : ⊥ = omega (arith, r) in elim no [ ];
      quiet = o.quiet;
      over = λ r. let no : ⊥ = omega (arith, r) in elim no [ ];
    }

pub start_Ordered : (processors : List Stage) (log : Shared) → Ordered (at_start processors log)
start_Ordered processors log = record {
  poller_first = λ r. let no : ⊥ = omega (arith, r) in elim no [ ];
  processors_next = λ r. let no : ⊥ = omega (arith, r) in elim no [ ];
  kafka_last = λ r. let no : ⊥ = omega (arith, r) in elim no [ ];
  requested = λ e. cc;
  late = λ l. cc;
  runs = λ r st. cc;
  quiet = λ q. cc;
  over = λ r. let no : ⊥ = omega (arith, r) in elim no [ ];
}
