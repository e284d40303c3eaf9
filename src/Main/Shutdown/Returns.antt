-- ===== src/Main/Shutdown/Returns.antt =====
-- What holds when `main` (src/main.cpp) returns.
use csv_to_kafka_using_cpp.Prelude.{
  true, List, [], ◌++◌, all, ◌≡◌, ◌≢◌, refl, ap, subst, arith, append-nil,
}
use csv_to_kafka_using_cpp.Prelude.Text.{Text}
use csv_to_kafka_using_cpp.Logging.{base_logger}
use csv_to_kafka_using_cpp.Logging.Drain.{Entry, lines_for}
use csv_to_kafka_using_cpp.Logging.LogProcessor.{Shared, Pc, ended}
use csv_to_kafka_using_cpp.Logging.LogProcessor.Account.{Closed, Accounts}
use csv_to_kafka_using_cpp.Main.Shutdown.{
  Stage, finished, returned, Program, is_finished, Reaches, at_start,
}
use csv_to_kafka_using_cpp.Main.Shutdown.Phases.{rank, is_quiet}
use csv_to_kafka_using_cpp.Main.Shutdown.Ordered.ByMain.{start_Ordered}
use csv_to_kafka_using_cpp.Main.Shutdown.Sound.{IsSound, Reaches-IsSound}

-- What there is when the program has returned from `main`.
pub record IsOver (handed : List Text) (s : Program) : Type 0 where
  pub was_requested : s.m_shutdown_requested ≡ true
  pub poller_over : s.poller ≡ finished
  pub processors_over : all is_finished s.processors ≡ true
  pub kafka_over : s.kafka ≡ finished
  pub log_over : s.log_pc ≡ ended
  pub log_closed : Closed handed s.log.logger.lines []

-- However the threads of the program interleave, from `main` at the creation of the log thread on,
-- with an empty log queue: if `main` returns, a shutdown was requested, the poller, every processor,
-- the Kafka poller and the log thread have ended, and no line is lost. The log has the lines from
-- before and then every entry from `INFO` on that any of the threads logged, each as one line, once
-- and in the order of the calls, with the log thread's own line on the shutdown among them and its
-- last line at the end.
pub returned-IsOver :
    {processors : List Stage} {log : Shared} {es : List Entry} {t : Program}
    → log.log_queue ≡ []
    → log.logger.sink ≢ base_logger
    → Reaches (at_start processors log) es t
    → t.main ≡ returned
    → IsOver (log.logger.lines ++ lines_for es) t
returned-IsOver {processors} {log} {es} {t} n h r m =
    let eight : rank t.main ≡ 8 = ap rank m in
    let handed = log.logger.lines ++ lines_for es in
    let start_sound : IsSound log.logger.lines (at_start processors log) = record {
      account = record {
        writes = h;
        no_empty = rw n refl;
        accounts = rw n (append-nil log.logger.lines);
      };
      order = start_Ordered processors log;
    } in
    let i = Reaches-IsSound r start_sound in
    let o = i.order in
    let p = o.poller_first (omega (arith, eight)) in
    let e = o.over (omega (arith, eight)) in
    record {
      was_requested = o.requested p;
      poller_over = p;
      processors_over = o.processors_next (omega (arith, eight));
      kafka_over = o.kafka_last (omega (arith, eight));
      log_over = e;
      log_closed =
          subst (λ (q : List Text). Closed handed t.log.logger.lines q) (o.quiet (ap is_quiet e))
            (subst (λ (q : Pc). Accounts handed t.log q) e i.account.accounts);
    }
