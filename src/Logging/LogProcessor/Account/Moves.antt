-- ===== src/Logging/LogProcessor/Account/Moves.antt =====
-- The thread of `LogProcessor` (src/logging/LogProcessor.cpp), a move at a time.
use csv_to_kafka_using_cpp.Prelude.{
  ℕ, true, false, some, List, [], ◌∷◌, ◌++◌, ◌≡◌, ◌≢◌, refl, ap, subst, sym, ◌∙◌, arith, all,
  is_empty, append_assoc,
}
use csv_to_kafka_using_cpp.Prelude.Text.{Text, codes}
use csv_to_kafka_using_cpp.Queue.{SafeQueue, dequeue, dequeue_with_timeout, queue_size}
use csv_to_kafka_using_cpp.Logging.{
  info, create_log, base_logger, Logger, write, write_level, write_named,
}
use csv_to_kafka_using_cpp.Logging.Drain.{write_lines}
use csv_to_kafka_using_cpp.Logging.LogProcessor.{
  Shared, Pc, testing, dequeuing, logging, draining, checking, ended, name, shutdown_requested,
  Move, begin, enter, none_active, hour_over, take, write_line, leave, take_timed, write_last,
  finish,
}
use csv_to_kafka_using_cpp.Logging.LogProcessor.Account.{is_line, held, Closing, Inv}

-- One more line in a log that is kept.
record Wrote (l : Logger) (message : Text) (l' : Logger) : Type 0 where
  pub still_writes : l'.sink ≢ base_logger
  pub one_more : l'.lines ≡ l.lines ++ message ∷ []

write-Wrote : (l : Logger) (m : Text) → l.sink ≢ base_logger → Wrote l m (write m l)
write-Wrote l m h =
    rw (write_lines l.sink l.lines m h) (record { still_writes = h; one_more = refl })

write_level-Wrote :
    (l : Logger) (m : Text) → l.sink ≢ base_logger → Wrote l m (write_level m info l)
unfolding write_level
write_level-Wrote l m h = write-Wrote l m h

write_named-Wrote :
    (l : Logger) (t m n : Text)
    → l.sink ≢ base_logger
    → Wrote l (create_log t m info n) (write_named t m info n l)
unfolding write_named
write_named-Wrote l t m n h = write-Wrote l (create_log t m info n) h

-- A line that is written was in front of those that wait.
write_held :
    {handed : List Text} (l l' : Logger) (m : Text) (waits : List Text)
    → Wrote l m l'
    → Closing handed l.lines (m ∷ waits)
    → Closing handed l'.lines waits
write_held l l' m waits w c =
    let own = create_log c.timestamp (shutdown_requested c.remaining) info name in
    record {
      before = c.before;
      after = c.after ++ m ∷ [];
      timestamp = c.timestamp;
      remaining = c.remaining;
      split =
          w.one_more
          ∙ ap (λ (x : List Text). x ++ m ∷ []) c.split
          ∙ append_assoc c.before (own ∷ c.after) (m ∷ []);
      kept = ap (◌++◌ c.before) (append_assoc c.after (m ∷ []) waits) ∙ c.kept;
    }

held_line : (m : Text) → is_empty m ≡ false → held m ≡ m ∷ []
held_line [] h = cc
held_line (c ∷ m) h = refl

-- What `dequeue_with_timeout` takes from lines that are not empty.
timed :
    (queue : SafeQueue Text)
    → all is_line queue ≡ true
    → let r = dequeue_with_timeout queue [] in (held r.0 ++ r.1 ≡ queue) × (all is_line r.1 ≡ true)
unfolding dequeue_with_timeout
timed [] h = (refl, refl)
timed (m ∷ queue) h =
    let some_line : is_empty m ≡ false = ground arith in
    (rw (held_line m some_line) refl, ground arith)

taken_first :
    (queue : SafeQueue Text) (m : Text) (rest : SafeQueue Text)
    → dequeue queue ≡ some (m, rest)
    → queue ≡ m ∷ rest
unfolding dequeue
taken_first [] m rest h = cc
taken_first (t ∷ queue) m rest h = cc

all-rest : (m : Text) (rest : List Text) → all is_line (m ∷ rest) ≡ true → all is_line rest ≡ true
all-rest m rest h = ground arith

-- The moves that take a line or write one.
take-Inv :
    {handed : List Text} (s : Shared) (message : Text) (rest : SafeQueue Text)
    → dequeue s.log_queue ≡ some (message, rest)
    → Inv handed s dequeuing
    → Inv handed (record s { log_queue = rest }) (logging message)
take-Inv s message rest e i =
    let same = taken_first s.log_queue message rest e in
    record {
      writes = i.writes;
      no_empty = all-rest message rest (ap (all is_line) (sym same) ∙ i.no_empty);
      accounts = ap (◌++◌ s.logger.lines) (sym same) ∙ i.accounts;
    }

write_line-Inv :
    {handed : List Text} (s : Shared) (message : Text)
    → Inv handed s (logging message)
    → Inv handed (record s { logger = write message s.logger }) testing
write_line-Inv s message i =
    let w = write-Wrote s.logger message i.writes in
    record {
      writes = w.still_writes;
      no_empty = i.no_empty;
      accounts =
          ap (λ (x : List Text). x ++ s.log_queue) w.one_more
          ∙ append_assoc s.logger.lines (message ∷ []) s.log_queue
          ∙ i.accounts;
    }

leave-Inv :
    {handed : List Text} (s : Shared) (timestamp : Text) (remaining : ℕ)
    → Inv handed s testing
    → Inv handed
        (record s {
          logger = write_named timestamp (shutdown_requested remaining) info name s.logger;
        })
        draining
leave-Inv s timestamp remaining i =
    let w = write_named-Wrote s.logger timestamp (shutdown_requested remaining) name i.writes in
    record {
      writes = w.still_writes;
      no_empty = i.no_empty;
      accounts = record {
        before = s.logger.lines;
        after = [];
        timestamp = timestamp;
        remaining = remaining;
        split = w.one_more;
        kept = i.accounts;
      };
    }

write_last-Inv :
    {handed : List Text} (s : Shared) (msg : Text)
    → is_empty msg ≡ false
    → Inv handed s (checking msg)
    → Inv handed (record s { logger = write_level msg info s.logger }) draining
write_last-Inv {handed} s msg some_line i =
    let w = write_level-Wrote s.logger msg i.writes in
    record {
      writes = w.still_writes;
      no_empty = i.no_empty;
      accounts = write_held s.logger _ msg s.log_queue w (
          subst (λ (x : List Text). Closing handed s.logger.lines (x ++ s.log_queue))
            (held_line msg some_line) i.accounts);
    }

finish-Inv :
    {handed : List Text} (s : Shared) (timestamp : Text)
    → Inv handed s (checking [])
    → Inv handed
        (record s { logger = write_named timestamp (codes "Shutting down") info name s.logger })
        ended
finish-Inv s timestamp i =
    let w = write_named-Wrote s.logger timestamp (codes "Shutting down") name i.writes in
    record {
      writes = w.still_writes;
      no_empty = i.no_empty;
      accounts = record {
        front = s.logger.lines;
        last_timestamp = timestamp;
        closing = i.accounts;
        whole = w.one_more;
      };
    }

-- Every move keeps account of the lines.
pub Move-Inv :
    {handed : List Text} {s t : Shared} {p q : Pc} → Move s p t q → Inv handed s p → Inv handed t q
Move-Inv begin i = record { writes = i.writes; no_empty = i.no_empty; accounts = i.accounts }
Move-Inv (enter r) i = record { writes = i.writes; no_empty = i.no_empty; accounts = i.accounts }
Move-Inv (none_active r) i = record {
  writes = i.writes;
  no_empty = i.no_empty;
  accounts = i.accounts;
}
Move-Inv hour_over i = record { writes = i.writes; no_empty = i.no_empty; accounts = i.accounts }
Move-Inv {s} (take {message} {rest} e) i = take-Inv s message rest e i
Move-Inv {s} (write_line {message}) i = write_line-Inv s message i
Move-Inv {s} (leave timestamp r) i = leave-Inv s timestamp (queue_size s.log_queue) i
Move-Inv {s} take_timed i =
    let (same, rest) = timed s.log_queue i.no_empty in
    record { writes = i.writes; no_empty = rest; accounts = rw same i.accounts }
Move-Inv {s} (write_last {msg} some_line) i = write_last-Inv s msg some_line i
Move-Inv {s} (finish timestamp) i = finish-Inv s timestamp i
