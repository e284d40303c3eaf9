-- ===== src/Main/Shutdown/Phases.antt =====
-- Where `main` and the log thread stand in the shutdown (src/main.cpp, src/logging/LogProcessor.cpp).
use csv_to_kafka_using_cpp.Prelude.{
  ◌≤◌, ℕ, zero, suc, Bool, true, false, some, List, [], ◌∷◌, all, set, get_elem?, ◌≡◌, ◌≢◌, ◌⊎◌,
  inl, inr, refl, arith, is_empty,
}
use csv_to_kafka_using_cpp.Prelude.Text.{Text}
use csv_to_kafka_using_cpp.Queue.{dequeue_with_timeout}
use csv_to_kafka_using_cpp.Logging.LogProcessor.{
  Shared, Pc, not_started, draining, checking, ended, Move, begin, enter, none_active, hour_over,
  take, write_line, leave, take_timed, write_last, finish,
}
use csv_to_kafka_using_cpp.Logging.LogProcessor.Account.{is_line}
use csv_to_kafka_using_cpp.Main.Shutdown.{
  Stage, running, finished, MainPc, preparing, building, starting_processors, joining_poller,
  joining_processors, joining_kafka, stopping_log, joining_log, returned, is_finished, is_preparing,
}

-- How far `main` has come.
abbrev pub rank : MainPc → ℕ
rank preparing = 0
rank building = 1
rank (starting_processors i) = 2
rank joining_poller = 3
rank joining_processors = 4
rank joining_kafka = 5
rank stopping_log = 6
rank joining_log = 7
rank returned = 8

pub early_rank : (m : MainPc) → is_preparing m ≡ true → rank m ≤ 1
early_rank preparing h = omega arith
early_rank building h = omega arith
early_rank (starting_processors i) h = cc
early_rank joining_poller h = cc
early_rank joining_processors h = cc
early_rank joining_kafka h = cc
early_rank stopping_log h = cc
early_rank joining_log h = cc
early_rank returned h = cc

-- The log thread behind its first loop.
abbrev pub is_late : Pc → Bool
is_late draining = true
is_late (checking msg) = true
is_late ended = true
is_late _ = false

abbrev pub is_started : Pc → Bool
is_started not_started = false
is_started _ = true

-- It has found the queue empty for the last time.
abbrev pub is_quiet : Pc → Bool
is_quiet (checking msg) = is_empty msg
is_quiet ended = true
is_quiet _ = false

pub Move-late :
    {s t : Shared} {p q : Pc}
    → Move s p t q
    → is_late q ≡ true
    → (is_late p ≡ true) ⊎ ((s.m_should_run ≡ false) × (is_started p ≡ true))
Move-late begin h = cc
Move-late (enter r) h = cc
Move-late (none_active r) h = cc
Move-late hour_over h = cc
Move-late (take r) h = cc
Move-late write_line h = cc
Move-late (leave t r) h = inr (r, refl)
Move-late take_timed h = inl refl
Move-late (write_last r) h = inl refl
Move-late (finish t) h = inl refl

pub Move-started :
    {s t : Shared} {p q : Pc}
    → Move s p t q
    → (is_started p ≡ true → s.m_should_run ≡ true)
    → t.m_should_run ≡ true
Move-started begin h = refl
Move-started (enter r) h = h refl
Move-started (none_active r) h = h refl
Move-started hour_over h = h refl
Move-started (take r) h = h refl
Move-started write_line h = h refl
Move-started (leave t r) h = h refl
Move-started take_timed h = h refl
Move-started (write_last r) h = h refl
Move-started (finish t) h = h refl

timed_out :
    (queue : List Text)
    → all is_line queue ≡ true
    → is_empty (dequeue_with_timeout queue []).0 ≡ true
    → (dequeue_with_timeout queue []).1 ≡ []
unfolding dequeue_with_timeout
timed_out [] h e = refl
timed_out (t ∷ queue) h e = let some_line : is_empty t ≡ false = ground arith in cc

pub Move-quiet :
    {s t : Shared} {p q : Pc}
    → Move s p t q
    → all is_line s.log_queue ≡ true
    → (is_quiet p ≡ true → s.log_queue ≡ [])
    → is_quiet q ≡ true
    → t.log_queue ≡ []
Move-quiet begin l h e = cc
Move-quiet (enter r) l h e = cc
Move-quiet (none_active r) l h e = cc
Move-quiet hour_over l h e = cc
Move-quiet (take r) l h e = cc
Move-quiet write_line l h e = cc
Move-quiet (leave t r) l h e = cc
Move-quiet {s} take_timed l h e = timed_out s.log_queue l e
Move-quiet (write_last r) l h e = cc
Move-quiet (finish t) l h e = h refl

pub ended_stays : {s t : Shared} {p q : Pc} → Move s p t q → p ≢ ended
ended_stays begin h = cc
ended_stays (enter r) h = cc
ended_stays (none_active r) h = cc
ended_stays hour_over h = cc
ended_stays (take r) h = cc
ended_stays write_line h = cc
ended_stays (leave t r) h = cc
ended_stays take_timed h = cc
ended_stays (write_last r) h = cc
ended_stays (finish t) h = cc

pub some_not_finished :
    (ps : List Stage) (i : ℕ) → get_elem? ps i ≡ some running → all is_finished ps ≢ true
some_not_finished [] i h a = cc
some_not_finished (p ∷ ps) zero h a = ground arith
some_not_finished (p ∷ ps) (suc i) h a =
    let rest : all is_finished ps ≡ true = ground arith in some_not_finished ps i h rest

pub finished_after_set :
    (ps : List Stage) (i : ℕ)
    → all is_finished ps ≡ true
    → all is_finished (set ps i finished) ≡ true
finished_after_set [] i a = refl
finished_after_set (p ∷ ps) zero a = ground arith
finished_after_set (p ∷ ps) (suc i) a = ground (arith, finished_after_set ps i)
