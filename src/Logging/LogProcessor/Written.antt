-- ===== src/Logging/LogProcessor/Written.antt =====
-- What the thread of `LogProcessor` (src/logging/LogProcessor.cpp) has written when it ends.
use csv_to_kafka_using_cpp.Prelude.{
  ℕ, Bool, false, List, [], ◌∷◌, ◌++◌, ◌≡◌, ◌≢◌, refl, ap, subst, sym, ◌∙◌, all-append, append-nil,
  append_assoc,
}
use csv_to_kafka_using_cpp.Prelude.Text.{Text}
use csv_to_kafka_using_cpp.Logging.{log_at, base_logger}
use csv_to_kafka_using_cpp.Logging.Drain.{
  Entry, lines_for, lines_for-append, lines_for_some, log_at-lines_for,
}
use csv_to_kafka_using_cpp.Logging.LogProcessor.{
  Shared, Pc, not_started, testing, waiting, dequeuing, logging, draining, checking, ended, Reaches,
  start, moves, logs, stop, counts,
}
use csv_to_kafka_using_cpp.Logging.LogProcessor.Account.{
  is_line, held, Closing, Closed, Accounts, Inv,
}
use csv_to_kafka_using_cpp.Logging.LogProcessor.Account.Moves.{Move-Inv}

-- More lines behind those that wait.
Closing-append :
    {handed lines waits : List Text} (more : List Text)
    → Closing handed lines waits
    → Closing (handed ++ more) lines (waits ++ more)
Closing-append {waits} more c = record {
  before = c.before;
  after = c.after;
  timestamp = c.timestamp;
  remaining = c.remaining;
  split = c.split;
  kept =
      ap (◌++◌ c.before) (sym (append_assoc c.after waits more))
      ∙ sym (append_assoc c.before (c.after ++ waits) more)
      ∙ ap (λ (x : List Text). x ++ more) c.kept;
}

append_behind :
    {handed : List Text} (lines waits more : List Text)
    → lines ++ waits ≡ handed
    → lines ++ (waits ++ more) ≡ handed ++ more
append_behind lines waits more h =
    sym (append_assoc lines waits more) ∙ ap (λ (x : List Text). x ++ more) h

Accounts-append :
    (handed : List Text) (s : Shared) (p : Pc) (more : List Text)
    → Accounts handed s p
    → Accounts (handed ++ more) (record s { log_queue = s.log_queue ++ more }) p
Accounts-append handed s not_started more a = append_behind s.logger.lines s.log_queue more a
Accounts-append handed s testing more a = append_behind s.logger.lines s.log_queue more a
Accounts-append handed s waiting more a = append_behind s.logger.lines s.log_queue more a
Accounts-append handed s dequeuing more a = append_behind s.logger.lines s.log_queue more a
Accounts-append handed s (logging message) more a =
    append_behind s.logger.lines (message ∷ s.log_queue) more a
Accounts-append handed s draining more a = Closing-append more a
Accounts-append handed s (checking msg) more a =
    subst (Closing (handed ++ more) s.logger.lines) (append_assoc (held msg) s.log_queue more)
      (Closing-append more a)
Accounts-append handed s ended more a = record {
  front = a.front;
  last_timestamp = a.last_timestamp;
  closing = Closing-append more a.closing;
  whole = a.whole;
}

-- What the other threads do keeps the account, too.
pub logs-Inv :
    {handed : List Text} {s : Shared} {p : Pc} (e : Entry)
    → Inv handed s p
    → Inv
        (handed ++ lines_for (e ∷ []))
        (record s { log_queue = log_at e.level e.timestamp e.message e.name s.log_queue })
        p
logs-Inv {s} {p} e i = rw (log_at-lines_for e s.log_queue) (record {
  writes = i.writes;
  no_empty =
      all-append is_line s.log_queue (lines_for (e ∷ [])) i.no_empty (lines_for_some (e ∷ []));
  accounts = Accounts-append _ s p (lines_for (e ∷ [])) i.accounts;
})

pub Accounts-same :
    (handed : List Text) (s : Shared) (p : Pc) (m_should_run : Bool) (n : ℕ)
    → Accounts handed s p
    → Accounts handed (record s { m_should_run = m_should_run; active_processors = n }) p
Accounts-same handed s not_started b n a = a
Accounts-same handed s testing b n a = a
Accounts-same handed s waiting b n a = a
Accounts-same handed s dequeuing b n a = a
Accounts-same handed s (logging message) b n a = a
Accounts-same handed s draining b n a = a
Accounts-same handed s (checking msg) b n a = a
Accounts-same handed s ended b n a = a

Reaches-Inv :
    {handed : List Text} {s : Shared} {p : Pc} {es : List Entry} {t : Shared} {q : Pc}
    → Reaches s p es t q
    → Inv handed s p
    → Inv (handed ++ lines_for es) t q
unfolding lines_for
Reaches-Inv {handed} {s} {p} start i =
    subst (λ (x : List Text). Inv x s p) (sym (append-nil handed)) i
Reaches-Inv (moves r m) i = Move-Inv m (Reaches-Inv r i)
Reaches-Inv {handed} (logs {es} {t} {q} r e) i =
    subst
      (λ (x : List Text).
        Inv x (record t { log_queue = log_at e.level e.timestamp e.message e.name t.log_queue }) q)
      (append_assoc handed (lines_for es) (lines_for (e ∷ []))
        ∙ ap (◌++◌ handed) (sym (lines_for-append es (e ∷ []))))
      (logs-Inv e (Reaches-Inv r i))
Reaches-Inv (stop {t} {q} r) i =
    let j = Reaches-Inv r i in
    record {
      writes = j.writes;
      no_empty = j.no_empty;
      accounts = Accounts-same _ t q false t.active_processors j.accounts;
    }
Reaches-Inv (counts {t} {q} r n) i =
    let j = Reaches-Inv r i in
    record {
      writes = j.writes;
      no_empty = j.no_empty;
      accounts = Accounts-same _ t q t.m_should_run n j.accounts;
    }

-- However the thread and the others take turns, from an empty queue on: when the thread has ended,
-- its log has the lines from before, then the entries from `INFO` on that the others logged, each
-- as one line, once and in the order of the calls, but for those that still wait in the queue.
-- Among them is the line on the shutdown, and last comes the line on the end.
pub ended-Closed :
    {s t : Shared} {es : List Entry}
    → s.log_queue ≡ []
    → s.logger.sink ≢ base_logger
    → Reaches s not_started es t ended
    → Closed (s.logger.lines ++ lines_for es) t.logger.lines t.log_queue
ended-Closed {s} n h r =
    (Reaches-Inv r (record {
      writes = h;
      no_empty = rw n refl;
      accounts = rw n (append-nil s.logger.lines);
    })).accounts
