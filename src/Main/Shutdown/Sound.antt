-- ===== src/Main/Shutdown/Sound.antt =====
-- The steps of the program (src/main.cpp) and the lines that its threads log.
use csv_to_kafka_using_cpp.Prelude.{
  ℕ, suc, ◌≤◌, Bool, true, false, List, [], ◌∷◌, ◌++◌, all, ◌≡◌, refl, sym, ap, ◌∙◌, subst, arith,
  append-nil, append_assoc,
}
use csv_to_kafka_using_cpp.Prelude.Text.{Text}
use csv_to_kafka_using_cpp.Logging.Drain.{Entry, lines_for, lines_for-append}
use csv_to_kafka_using_cpp.Logging.LogProcessor.{Shared, Pc, ended}
use csv_to_kafka_using_cpp.Logging.LogProcessor.Account.{Inv}
use csv_to_kafka_using_cpp.Logging.LogProcessor.Account.Moves.{Move-Inv}
use csv_to_kafka_using_cpp.Logging.LogProcessor.Written.{logs-Inv, Accounts-same}
use csv_to_kafka_using_cpp.Main.Shutdown.{
  finished, MainPc, joining_poller, joining_processors, joining_kafka, stopping_log, returned,
  Program, Thread, poller_thread, kafka_thread, processor_thread, finish_thread, is_finished,
  logged, Step, main_logs, start_kafka, start_poller, start_processor, all_started, signal, works,
  counts, ends, poller_joined, processors_joined, kafka_joined, log_stopped, log_moves, log_joined,
  Reaches, start, step,
}
use csv_to_kafka_using_cpp.Main.Shutdown.Phases.{rank, early_rank}
use csv_to_kafka_using_cpp.Main.Shutdown.Ordered.{Ordered, running_early}
use csv_to_kafka_using_cpp.Main.Shutdown.Ordered.ByThreads.{
  logged-Ordered, finish_thread-Ordered, signal-Ordered, counts-Ordered, log_moves-Ordered,
}
use csv_to_kafka_using_cpp.Main.Shutdown.Ordered.ByMain.{
  early_Ordered, main_on, log_stopped-Ordered,
}

-- The lines handed to the log are where they are to be, and the threads end in their order.
pub record IsSound (handed : List Text) (s : Program) : Type 0 where
  pub account : Inv handed s.log s.log_pc
  pub order : Ordered s

nothing_logged :
    {handed : List Text} {s : Program} → IsSound handed s → IsSound (handed ++ lines_for []) s
unfolding lines_for
nothing_logged {handed} {s} i = subst (λ (x : List Text). IsSound x s) (sym (append-nil handed)) i

logged-IsSound :
    {handed : List Text} (s : Program) (e : Entry)
    → IsSound handed s
    → rank s.main ≤ 6
    → IsSound (handed ++ lines_for (e ∷ [])) (logged e s)
logged-IsSound s e i early = record {
  account = logs-Inv e i.account;
  order = logged-Ordered s e i.order early;
}

Shared-Inv :
    {handed : List Text} (log : Shared) (p : Pc) (b : Bool) (n : ℕ)
    → Inv handed log p
    → Inv handed (record log { m_should_run = b; active_processors = n }) p
Shared-Inv log p b n i = record {
  writes = i.writes;
  no_empty = i.no_empty;
  accounts = Accounts-same _ log p b n i.accounts;
}

finish_thread-IsSound :
    {handed : List Text} (s : Program) (t : Thread)
    → IsSound handed s
    → s.m_shutdown_requested ≡ true
    → IsSound handed (finish_thread t s)
finish_thread-IsSound s poller_thread i h = record {
  account = i.account;
  order = finish_thread-Ordered s poller_thread i.order h;
}
finish_thread-IsSound s kafka_thread i h = record {
  account = i.account;
  order = finish_thread-Ordered s kafka_thread i.order h;
}
finish_thread-IsSound s (processor_thread k) i h = record {
  account = i.account;
  order = finish_thread-Ordered s (processor_thread k) i.order h;
}

-- A step that logs nothing.
silent :
    {handed : List Text} (t : Program)
    → Inv handed t.log t.log_pc
    → Ordered t
    → IsSound (handed ++ lines_for []) t
silent t i o = nothing_logged (record { account = i; order = o })

-- `main` goes on.
main_goes :
    {handed : List Text} (s : Program) (m : MainPc)
    → IsSound handed s
    → rank m ≡ suc (rank s.main)
    → (rank m ≡ 4 → s.poller ≡ finished)
    → (rank m ≡ 5 → all is_finished s.processors ≡ true)
    → (rank m ≡ 6 → s.kafka ≡ finished)
    → (rank m ≡ 8 → s.log_pc ≡ ended)
    → IsSound (handed ++ lines_for []) (record s { main = m })
main_goes s m i r two three four six = silent _ i.account (main_on s m i.order r two three four six)

-- A thread is started.
starts :
    {handed : List Text} (s t : Program)
    → IsSound handed s
    → rank s.main ≤ 2
    → rank t.main ≤ 2
    → (t.poller ≡ finished → t.m_shutdown_requested ≡ true)
    → t.log_pc ≡ s.log_pc
    → t.log ≡ s.log
    → IsSound (handed ++ lines_for []) t
starts {handed} s t i early one p pc log =
    silent t
      (subst (Inv handed t.log) (sym pc)
        (subst (λ (l : Shared). Inv handed l s.log_pc) (sym log) i.account))
      (early_Ordered s t i.order early one p pc log)

Step-IsSound :
    {handed : List Text} {s : Program} {es : List Entry} {t : Program}
    → Step s es t
    → IsSound handed s
    → IsSound (handed ++ lines_for es) t
Step-IsSound {s} (main_logs m e) i = logged-IsSound s e i (omega (arith, early_rank s.main m))
Step-IsSound {s} (works t r e) i = logged-IsSound s e i (running_early s t i.order r)
Step-IsSound {s} (start_kafka m) i =
    starts s _ i (omega (arith, ap rank m)) (omega arith) i.order.requested refl refl
Step-IsSound {s} (start_poller m) i =
    starts s _ i (omega (arith, ap rank m)) (omega arith) (λ e. cc) refl refl
Step-IsSound {s} (start_processor m l) i =
    starts s _ i (omega (arith, ap rank m)) (omega arith) i.order.requested refl refl
Step-IsSound {s} (all_started m l) i =
    main_goes s joining_poller i (omega (arith, ap rank m)) (λ e. cc) (λ e. cc) (λ e. cc) (λ e. cc)
Step-IsSound {s} signal i = silent _ i.account (signal-Ordered s i.order)
Step-IsSound {s} (counts j n r) i =
    silent _ (Shared-Inv s.log s.log_pc s.log.m_should_run n i.account) (counts-Ordered s n i.order)
Step-IsSound {s} (ends t r h) i = nothing_logged (finish_thread-IsSound s t i h)
Step-IsSound {s} (poller_joined m p) i =
    main_goes s joining_processors i (omega (arith, ap rank m)) (λ e. p) (λ e. cc) (λ e. cc)
      (λ e. cc)
Step-IsSound {s} (processors_joined m p) i =
    main_goes s joining_kafka i (omega (arith, ap rank m)) (λ e. cc) (λ e. p) (λ e. cc) (λ e. cc)
Step-IsSound {s} (kafka_joined m p) i =
    main_goes s stopping_log i (omega (arith, ap rank m)) (λ e. cc) (λ e. cc) (λ e. p) (λ e. cc)
Step-IsSound {s} (log_stopped m) i =
    silent _ (Shared-Inv s.log s.log_pc false s.log.active_processors i.account)
      (log_stopped-Ordered s i.order m)
Step-IsSound {s} (log_moves {log} {log_pc} m) i =
    silent _ (Move-Inv m i.account) (log_moves-Ordered s log log_pc i.order i.account.no_empty m)
Step-IsSound {s} (log_joined m e) i =
    main_goes s returned i (omega (arith, ap rank m)) (λ e. cc) (λ e. cc) (λ e. cc) (λ r. e)

pub Reaches-IsSound :
    {handed : List Text} {s : Program} {es : List Entry} {t : Program}
    → Reaches s es t
    → IsSound handed s
    → IsSound (handed ++ lines_for es) t
Reaches-IsSound start i = nothing_logged i
Reaches-IsSound {handed} (step {es} {fs} {u} r m) i =
    subst (λ (x : List Text). IsSound x u)
      (append_assoc handed (lines_for es) (lines_for fs)
        ∙ ap (◌++◌ handed) (sym (lines_for-append es fs)))
      (Step-IsSound m (Reaches-IsSound r i))
