-- ===== src/Logging/Drain.antt =====
-- No line is lost at the end of `LogProcessor::run` (src/logging/LogProcessor.cpp).
use csv_to_kafka_using_cpp.Prelude.{
  ℕ, zero, suc, ◌<◌, ◌≤◌, Bool, true, false, not, some, List, [], ◌∷◌, ◌++◌, ◌≡◌, ◌≢◌, refl, sym,
  ap, ◌∙◌, arith, if◌then◌else◌, is_empty, length, all, append-nil, append_assoc, Bool-cases, inl,
  inr,
}
use csv_to_kafka_using_cpp.Prelude.Text.{Text, codes}
use csv_to_kafka_using_cpp.Queue.{SafeQueue, enqueue, dequeue_with_timeout}
use csv_to_kafka_using_cpp.Logging.{
  Level, trace, debug, info, warn, error, prefix, create_log, log_at, Sink, base_logger,
  std_out_logger, file_logger, spd_logger, Logger, write, write_level, drain,
}

-- One call of the logging functions.
pub record Entry : Type 0 where
  pub level : Level
  pub timestamp : Text
  pub message : Text
  pub name : Text

pub log_all : List Entry → SafeQueue Text → SafeQueue Text
log_all [] queue = queue
log_all (e ∷ es) queue = log_all es (log_at e.level e.timestamp e.message e.name queue)

-- From `INFO` on.
abbrev pub is_kept : Level → Bool
is_kept trace = false
is_kept debug = false
is_kept _ = true

-- The lines for these calls.
unfoldable pub lines_for : List Entry → List Text
lines_for [] = []
lines_for (e ∷ es) =
    let rest = lines_for es in
    if is_kept e.level then create_log e.timestamp e.message e.level e.name ∷ rest else rest

pub lines_for-append : (es fs : List Entry) → lines_for (es ++ fs) ≡ lines_for es ++ lines_for fs
unfolding lines_for
lines_for-append [] fs = refl
lines_for-append (e ∷ es) fs = elim (Bool-cases (is_kept e.level)) [
  | inl k ↦
      rw k (ap (◌∷◌ (create_log e.timestamp e.message e.level e.name)) (lines_for-append es fs))
  | inr k ↦ rw k (lines_for-append es fs)
]

append_some : (s t : Text) → is_empty t ≡ false → is_empty (s ++ t) ≡ false
append_some [] t h = h
append_some (c ∷ s) t h = refl

create_log_some :
    (t m : Text) (level : Level) (n : Text) → is_empty (create_log t m level n) ≡ false
unfolding create_log
create_log_some t m level n =
    append_some (t ++ prefix level ++ codes "[" ++ n ++ codes "] " ++ m) (b'\n' ∷ []) refl

pub log_at-line :
    (level : Level) (t m n : Text) (queue : SafeQueue Text)
    → log_at level t m n queue
      ≡ (if is_kept level then queue ++ create_log t m level n ∷ [] else queue)
unfolding log_at enqueue
log_at-line trace t m n queue = refl
log_at-line debug t m n queue = refl
log_at-line info t m n queue = refl
log_at-line warn t m n queue = refl
log_at-line error t m n queue = refl

-- What one call puts behind the lines that wait.
pub log_at-lines_for :
    (e : Entry) (queue : SafeQueue Text)
    → log_at e.level e.timestamp e.message e.name queue ≡ queue ++ lines_for (e ∷ [])
unfolding lines_for
log_at-lines_for e queue = elim (Bool-cases (is_kept e.level)) [
  | inl k ↦ rw k (log_at-line e.level e.timestamp e.message e.name queue ∙ rw k refl)
  | inr k ↦
      rw k (log_at-line e.level e.timestamp e.message e.name queue ∙ rw k (sym (append-nil queue)))
]

log_all-lines :
    (es : List Entry) (queue : SafeQueue Text) → log_all es queue ≡ queue ++ lines_for es
unfolding log_all lines_for
log_all-lines [] queue = sym (append-nil queue)
log_all-lines (e ∷ es) queue = elim (Bool-cases (is_kept e.level)) [
  | inl k ↦
      rw (log_at-line e.level e.timestamp e.message e.name queue, k)
        (log_all-lines es (queue ++ create_log e.timestamp e.message e.level e.name ∷ [])
          ∙ append_assoc queue (create_log e.timestamp e.message e.level e.name ∷ [])
              (lines_for es))
  | inr k ↦ rw (log_at-line e.level e.timestamp e.message e.name queue, k) (log_all-lines es queue)
]

pub lines_for_some : (es : List Entry) → all (λ t. not (is_empty t)) (lines_for es) ≡ true
unfolding lines_for
lines_for_some [] = refl
lines_for_some (e ∷ es) = elim (Bool-cases (is_kept e.level)) [
  | inl k ↦ rw (k, create_log_some e.timestamp e.message e.level e.name) (lines_for_some es)
  | inr k ↦ rw k (lines_for_some es)
]

pub write_lines :
    (sink : Sink) (lines : List Text) (message : Text)
    → sink ≢ base_logger
    → write message (record { sink = sink; lines = lines })
      ≡ record { sink = sink; lines = lines ++ message ∷ [] }
unfolding write
write_lines base_logger lines message h = elim (h refl) [ ]
write_lines std_out_logger lines message h = refl
write_lines file_logger lines message h = refl
write_lines spd_logger lines message h = refl

lines_for_short : (es : List Entry) → length (lines_for es) ≤ length es
unfolding lines_for
lines_for_short [] = omega arith
lines_for_short (e ∷ es) = elim (Bool-cases (is_kept e.level)) [
  | inl k ↦ rw k (omega (arith, lines_for_short es))
  | inr k ↦ rw k (omega (arith, lines_for_short es))
]

-- Lines that are not empty are all written.
drain-all :
    (fuel : ℕ) (queue : SafeQueue Text) (l : Logger)
    → l.sink ≢ base_logger
    → all (λ t. not (is_empty t)) queue ≡ true
    → length queue < fuel
    → drain fuel queue l ≡ some ([], record l { lines = l.lines ++ queue })
unfolding drain dequeue_with_timeout write_level
drain-all zero queue l s h f = elim f [ ]
drain-all (suc fuel) [] l s h f =
    ap (λ (x : List Text). some ([], record l { lines = x })) (sym (append-nil l.lines))
drain-all (suc fuel) (line ∷ queue) l s h f =
    let some_line : is_empty line ≡ false = ground arith in
    let rest : all (λ t. not (is_empty t)) queue ≡ true = ground arith in
    rw (some_line, write_lines l.sink l.lines line s)
      (drain-all fuel queue (record l { lines = l.lines ++ line ∷ [] }) s rest (omega (arith, f))
        ∙ ap (λ (x : List Text). some ([], record l { lines = x }))
            (append_assoc l.lines (line ∷ []) queue))

-- What is logged while the thread stops is not lost: the last loop ends, with every entry from
-- `INFO` on as one line, in the order of the calls, behind the lines written before, for every
-- logger but the base class. Entries below `INFO` never reach the queue.
pub drain-log_all :
    (es : List Entry) (l : Logger) (fuel : ℕ)
    → l.sink ≢ base_logger
    → length es < fuel
    → drain fuel (log_all es []) l ≡ some ([], record l { lines = l.lines ++ lines_for es })
drain-log_all es l fuel s f =
    rw (log_all-lines es [])
      (drain-all fuel (lines_for es) l s (lines_for_some es) (omega (arith, lines_for_short es, f)))
