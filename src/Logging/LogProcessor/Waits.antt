-- ===== src/Logging/LogProcessor/Waits.antt =====
-- When the thread of `LogProcessor` (src/logging/LogProcessor.cpp) cannot go on.
use csv_to_kafka_using_cpp.Prelude.{
  List, [], ◌∷◌, ◌≡◌, ◌≢◌, ◌⊎◌, refl, ap, sym, ◌∙◌, inl, inr, Bool-cases, List-cases, append-eq-nil,
}
use csv_to_kafka_using_cpp.Queue.{dequeue}
use csv_to_kafka_using_cpp.Logging.Drain.{Entry, lines_for, log_at-lines_for, lines_for-append}
use csv_to_kafka_using_cpp.Logging.LogProcessor.{
  Shared, Pc, not_started, testing, waiting, dequeuing, logging, draining, checking, ended, Move,
  begin, enter, hour_over, take, write_line, leave, take_timed, write_last, finish, Reaches, start,
  moves, logs, stop, counts,
}

-- Unless it has ended, or waits in `dequeue` for a line, the thread can go on.
can_go_on :
    (s : Shared) (p : Pc)
    → (p ≡ ended)
      ⊎ (((p ≡ dequeuing) × (s.log_queue ≡ [])) ⊎ ((t : Shared) × (q : Pc) × Move s p t q))
unfolding dequeue
can_go_on s not_started = inr (inr (_, _, begin))
can_go_on s testing = elim (Bool-cases s.m_should_run) [
  | inl r ↦ inr (inr (_, _, enter r))
  | inr r ↦ inr (inr (_, _, leave [] r))
]
can_go_on s waiting = inr (inr (_, _, hour_over))
can_go_on s dequeuing = elim (List-cases s.log_queue) [
  | inl e ↦ inr (inl (refl, e))
  | inr (message, rest, e) ↦ inr (inr (_, _, take (ap dequeue e)))
]
can_go_on s (logging message) = inr (inr (_, _, write_line))
can_go_on s draining = inr (inr (_, _, take_timed))
can_go_on s (checking []) = inr (inr (_, _, finish []))
can_go_on s (checking (c ∷ msg)) = inr (inr (_, _, write_last refl))
can_go_on s ended = inl refl

pub no_move : {s t : Shared} {p q : Pc} → Move s p t q → p ≡ dequeuing → s.log_queue ≢ []
unfolding dequeue
no_move (take e) h n = let b = ap dequeue n in cc
no_move _ h n = cc

-- `stop` does not wake the thread: once it waits in `dequeue` at an empty queue, it waits there for
-- as long as nobody else logs an entry from `INFO` on, with the flag set or not.
waits_for_lines :
    {s : Shared} {p : Pc} {es : List Entry} {t : Shared} {q : Pc}
    → Reaches s p es t q
    → p ≡ dequeuing
    → s.log_queue ≡ []
    → lines_for es ≡ []
    → (q ≡ dequeuing) × (t.log_queue ≡ [])
waits_for_lines start d n h = (d, n)
waits_for_lines (moves r m) d n h =
    let (at, none_left) = waits_for_lines r d n h in elim (no_move m at none_left) [ ]
waits_for_lines (logs {es} {t} r e) d n h =
    let (before, this) =
      append-eq-nil (lines_for es) (lines_for (e ∷ [])) (sym (lines_for-append es (e ∷ [])) ∙ h) in
    let (at, none_left) = waits_for_lines r d n before in
    (at, log_at-lines_for e t.log_queue ∙ rw (none_left, this) refl)
waits_for_lines (stop r) d n h = waits_for_lines r d n h
waits_for_lines (counts r k) d n h = waits_for_lines r d n h
