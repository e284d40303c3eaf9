-- ===== src/Logging/FileLogger.antt =====
-- `FileLogger` (src/logging/FileLogger.cpp): the file, which is closed and opened again from time to
-- time.
use csv_to_kafka_using_cpp.Prelude.{
  ℕ, ◌+◌, ◌*◌, ◌<◌, Bool, true, false, not, List, [], ◌∷◌, ◌++◌, map, all, ◌≡◌, refl, sym, ap,
  subst, ◌∙◌, arith, ltb, append-nil, append_assoc,
}
use csv_to_kafka_using_cpp.Prelude.Text.{Text}
use csv_to_kafka_using_cpp.Logging.{Logger, file_logger, write}

-- Times are ticks of the system clock from its epoch, a thousand million in a second; that they fit
-- into the 64 bits of the clock is taken for granted. `file` has what has been written to the file.
pub record FileLogger : Type 0 where
  pub m_file_name : Text
  pub is_open : Bool
  pub file : List Text
  pub m_reopen_interval : ℕ
  pub m_last_reopen : ℕ

-- What `reopen` gets from outside: the two readings of the clock, and whether `open` succeeds. A
-- stream throws nothing where it fails to open.
pub record Surroundings : Type 0 where
  pub now : ℕ
  pub now_after : ℕ
  pub opens : Bool

abbrev pub ticks : ℕ
ticks = 10 * 10 * 10 * 10 * 10 * 10 * 10 * 10 * 10

unfoldable pub is_due : ℕ → FileLogger → Bool
is_due now l = ltb (l.m_last_reopen + l.m_reopen_interval * ticks) now

abbrev reopen_if : Bool → Surroundings → FileLogger → FileLogger
reopen_if true s l = record l { m_last_reopen = s.now_after; is_open = s.opens }
reopen_if false s l = l

unfoldable pub reopen : Surroundings → FileLogger → FileLogger
unfolding is_due
reopen s l = reopen_if (is_due s.now l) s l

-- The constructor, with the interval from the configuration or 300 seconds.
abbrev never_opened : Text → ℕ → FileLogger
never_opened name interval = record {
  m_file_name = name;
  is_open = false;
  file = [];
  m_reopen_interval = interval;
  m_last_reopen = 0;
}

unfoldable pub new_file : Text → ℕ → Surroundings → FileLogger
unfolding reopen
new_file name interval s = reopen s (never_opened name interval)

-- `m_file << message`: a stream that is not open takes nothing.
abbrev put_if : Bool → Text → FileLogger → FileLogger
put_if true message l = record l { file = l.file ++ message ∷ [] }
put_if false message l = l

-- `log(message)`
unfoldable pub log : Text → Surroundings → FileLogger → FileLogger
unfolding reopen
log message s l = reopen s (put_if l.is_open message l)

abbrev pub log_each : List (Text × Surroundings) → FileLogger → FileLogger
log_each [] l = l
log_each ((message, s) ∷ calls) l = log_each calls (log message s l)

abbrev always_opens : List (Text × Surroundings) → Bool
always_opens calls = all (λ (c : Text × Surroundings). c.1.opens) calls

-- An open file after an opening that succeeds, or none.
record IsOpenWith (file : List Text) (l : FileLogger) : Type 0 where
  pub still_open : l.is_open ≡ true
  pub holds : l.file ≡ file

reopen_if_open :
    (due : Bool) (s : Surroundings) (l : FileLogger)
    → s.opens ≡ true
    → l.is_open ≡ true
    → IsOpenWith l.file (reopen_if due s l)
reopen_if_open true s l h o = record { still_open = h; holds = refl }
reopen_if_open false s l h o = record { still_open = o; holds = refl }

log_open :
    (message : Text) (s : Surroundings) (l : FileLogger)
    → s.opens ≡ true
    → l.is_open ≡ true
    → IsOpenWith (l.file ++ message ∷ []) (log message s l)
unfolding log reopen
log_open message s l h o =
    subst (λ (b : Bool). IsOpenWith (l.file ++ message ∷ []) (reopen s (put_if b message l)))
      (sym o) (reopen_if_open _ s (put_if true message l) h o)

log_each_open :
    (calls : List (Text × Surroundings)) (l : FileLogger)
    → always_opens calls ≡ true
    → l.is_open ≡ true
    → (log_each calls l).file ≡ l.file ++ map (λ (c : Text × Surroundings). c.0) calls
log_each_open [] l h o = sym (append-nil l.file)
log_each_open ((message, s) ∷ calls) l h o =
    let first : s.opens ≡ true = ground arith in
    let rest : always_opens calls ≡ true = ground arith in
    let step = log_open message s l first o in
    log_each_open calls (log message s l) rest step.still_open
    ∙ ap (λ (x : List Text). x ++ map (λ (c : Text × Surroundings). c.0) calls) step.holds
    ∙ append_assoc l.file (message ∷ []) (map (λ (c : Text × Surroundings). c.0) calls)

abbrev never_due : ℕ → List (Text × Surroundings) → Bool
never_due interval calls =
    all (λ (c : Text × Surroundings). not (ltb (interval * ticks) c.1.now)) calls

log_shut :
    (message : Text) (s : Surroundings) (l : FileLogger)
    → l.is_open ≡ false
    → l.m_last_reopen ≡ 0
    → ltb (l.m_reopen_interval * ticks) s.now ≡ false
    → log message s l ≡ l
unfolding log reopen is_due
log_shut message s l o z d =
    let e : ltb (0 + l.m_reopen_interval * ticks) s.now ≡ false = ground arith in
    ap (λ (b : Bool). reopen s (put_if b message l)) o
    ∙ ap (λ (b : Bool). reopen_if b s l)
        (ap (λ (n : ℕ). ltb (n + l.m_reopen_interval * ticks) s.now) z ∙ e)

log_each_shut :
    (calls : List (Text × Surroundings)) (l : FileLogger)
    → l.is_open ≡ false
    → l.m_last_reopen ≡ 0
    → never_due l.m_reopen_interval calls ≡ true
    → log_each calls l ≡ l
log_each_shut [] l o z h = refl
log_each_shut ((message, s) ∷ calls) l o z h =
    let first : ltb (l.m_reopen_interval * ticks) s.now ≡ false = ground arith in
    let rest : never_due l.m_reopen_interval calls ≡ true = ground arith in
    rw (log_shut message s l o z first) (log_each_shut calls l o z rest)

-- The messages handed to a logger of the other description.
abbrev pub write_each : List Text → Logger → Logger
write_each [] l = l
write_each (message ∷ ms) l = write_each ms (write message l)

write_each_lines :
    (ms : List Text) (lines : List Text)
    → (write_each ms (record { sink = file_logger; lines = lines })).lines ≡ lines ++ ms
unfolding write
write_each_lines [] lines = sym (append-nil lines)
write_each_lines (message ∷ ms) lines =
    write_each_lines ms (lines ++ message ∷ []) ∙ append_assoc lines (message ∷ []) ms

-- However often the file is closed and opened again in between, it gets what the logger of the plain
-- description writes, every message once and in order, where each opening succeeds and the
-- interval is shorter than the time from the clock's epoch to the construction. Where the clock never
-- gets beyond the interval the file is never opened, and no message is kept.
pub log_each-write_each :
    (name : Text) (interval : ℕ) (s : Surroundings) (calls : List (Text × Surroundings))
    → (interval * ticks < s.now
        → s.opens ≡ true
        → all (λ (c : Text × Surroundings). c.1.opens) calls ≡ true
        → (log_each calls (new_file name interval s)).file
          ≡ (write_each
              (map (λ (c : Text × Surroundings). c.0) calls)
              (record { sink = file_logger; lines = [] })).lines)
      × (ltb (interval * ticks) s.now ≡ false
          → all (λ (c : Text × Surroundings). not (ltb (interval * ticks) c.1.now)) calls ≡ true
          → (log_each calls (new_file name interval s)).file ≡ [])
unfolding new_file reopen is_due
log_each-write_each name interval s calls =
    let l = never_opened name interval in
    (
      λ due h all_open.
          let d : ltb (0 + interval * ticks) s.now ≡ true = ground arith in
          ap (λ (b : Bool). (log_each calls (reopen_if b s l)).file) d
          ∙ log_each_open calls (reopen_if true s l) all_open h
          ∙ sym (write_each_lines (map (λ (c : Text × Surroundings). c.0) calls) []),
      λ due h.
          let d : ltb (0 + interval * ticks) s.now ≡ false = ground arith in
          ap (λ (b : Bool). (log_each calls (reopen_if b s l)).file) d
          ∙ ap (λ (x : FileLogger). x.file) (log_each_shut calls l refl refl h),
    )
