-- ===== src/Logging.antt =====
-- src/logging: the levels, the lines, the factory of the loggers and the thread that writes.
pub mod Drain
pub mod LogProcessor
pub mod FileLogger
use csv_to_kafka_using_cpp.Prelude.{
  ℕ, zero, suc, ◌+◌, Bool, true, false, Option, none, some, List, [], ◌∷◌, ◌++◌, ltb, if◌then◌else◌,
  is_empty, length,
}
use csv_to_kafka_using_cpp.Prelude.Text.{Text, codes}
use csv_to_kafka_using_cpp.Prelude.Dict.{Dict, find}
use csv_to_kafka_using_cpp.Prelude.Result.{Result, ok, throws, undefined, std_exception, ◌>>=◌}
use csv_to_kafka_using_cpp.Prelude.Int.{ℤ, pos, atoi}
use csv_to_kafka_using_cpp.Queue.{SafeQueue, enqueue, dequeue, dequeue_with_timeout}

pub data Level : Type 0 where
  trace debug info warn error : Level

-- The underlying number of a level.
abbrev pub number : Level → ℕ
number trace = 0
number debug = 1
number info = 2
number warn = 3
number error = 4

-- `LEVEL_CUTOFF`: of the macros, only `LOGGING_LEVEL_INFO` is defined.
abbrev pub level_cutoff : Level
level_cutoff = info

abbrev pub prefix : Level → Text
prefix error = codes " [ERROR] "
prefix warn = codes " [WARN] "
prefix info = codes " [INFO] "
prefix debug = codes " [DEBUG] "
prefix trace = codes " [TRACE] "

-- `timestamp` is what the clock gives, as a text.
unfoldable pub create_log : Text → Text → Level → Text → Text
create_log timestamp message level name =
    timestamp ++ prefix level ++ codes "[" ++ name ++ codes "] " ++ message ++ b'\n' ∷ []

-- `TRACE`, `DEBUG`, `INFO` and `WARN`, by their level; `ERROR` has no test, and none is needed.
unfoldable pub log_at : Level → Text → Text → Text → SafeQueue Text → SafeQueue Text
unfolding create_log enqueue
log_at error timestamp message name log_queue =
    enqueue (create_log timestamp message error name) log_queue
log_at level timestamp message name log_queue =
    if ltb (number level) (number level_cutoff)
    then log_queue
    else enqueue (create_log timestamp message level name) log_queue

-- A logger, with the lines it has written. `BaseLogger` writes nothing.
pub data Sink : Type 0 where
  base_logger std_out_logger file_logger spd_logger : Sink

pub record Logger : Type 0 where
  pub sink : Sink
  pub lines : List Text

unfoldable pub write : Text → Logger → Logger
write message l = elim l.sink [ base_logger ↦ l | _ ↦ record l { lines = l.lines ++ message ∷ [] } ]

-- `log(message, level)` and `log(message, level, name)` of the loggers: the same test in each.
unfoldable pub write_level : Text → Level → Logger → Logger
unfolding write
write_level message level l =
    if ltb (number level) (number level_cutoff) then l else write message l

unfoldable pub write_named : Text → Text → Level → Text → Logger → Logger
unfolding write create_log
write_named timestamp message level name l =
    if ltb (number level) (number level_cutoff)
    then l
    else write (create_log timestamp message level name) l

-- The constructors, from the configuration. `stoul` is that of the standard library, `none` where
-- it throws.
abbrev new_logger : Sink → Logger
new_logger sink = record { sink = sink; lines = [] }

abbrev no_file : Result Logger
no_file = throws (std_exception (codes "No output file provided to file logger"))

unfoldable pub new_file_logger : (Text → Option ℕ) → Dict Text → Result Logger
new_file_logger stoul config = elim (find (codes "file_name") config) [
  | none ↦ no_file
  | some name ↦ elim (find (codes "reopen_interval") config) [
    | none ↦ ok (new_logger file_logger)
    | some interval ↦ elim (stoul interval) [
      | none ↦ throws (std_exception (interval ++ codes " is not a valid reopen interval"))
      | some n ↦ ok (new_logger file_logger)
    ]
  ]
]

-- `atoi` of a number out of range is undefined.
abbrev number_or : Option Text → ℤ → Result ℤ
number_or none default = ok default
number_or (some t) default = atoi t

unfoldable pub new_spd_logger : Dict Text → Result Logger
new_spd_logger config = elim (find (codes "file_name") config) [
  | none ↦ no_file
  | some name ↦ (do
    hour ← number_or (find (codes "hour") config) (pos 2)
    minute ← number_or (find (codes "minute") config) (pos 30)
    ok (new_logger spd_logger))
]

-- `Factory`: the creators by their names.
unfoldable pub creators : (Text → Option ℕ) → Dict (Dict Text → Result Logger)
unfolding new_file_logger new_spd_logger
creators stoul =
    (codes "", λ config. ok (new_logger base_logger))
    ∷ (codes "std_out", λ config. ok (new_logger std_out_logger))
    ∷ (codes "file", λ config. new_file_logger stoul config)
    ∷ (codes "daily", λ config. new_spd_logger config)
    ∷ []

-- The names in the message of the second exception come in the order of a hash map; they are left
-- out.
unfoldable pub create : (Text → Option ℕ) → Dict Text → Result Logger
unfolding creators
create stoul config = elim (find (codes "type") config) [
  | none ↦ throws (std_exception (codes "Logging factory configuration requires a type of logger."))
  | some type ↦ elim (find type (creators stoul)) [
    | some creator ↦ creator config
    | none ↦
        throws (std_exception (codes "Couldn't produce logger for type: '" ++ type ++ codes "'."))
  ]
]

-- `get_logger` and `configure`: the singleton is what it is when it is made, and later configurations
-- are not looked at.
unfoldable pub get_logger : (Text → Option ℕ) → Dict Text → Option Logger → Result Logger
unfolding create
get_logger stoul config none = create stoul config
get_logger stoul config (some singleton) = ok singleton

-- The second loop, after `stop`, with fuel: it ends at an empty message, which is what an empty
-- queue gives.
unfoldable pub drain : ℕ → SafeQueue Text → Logger → Option (SafeQueue Text × Logger)
unfolding dequeue_with_timeout write_level
drain zero log_queue l = none
drain (suc fuel) log_queue l =
    let r = dequeue_with_timeout log_queue [] in
    let rest = drain fuel r.1 (write_level r.0 info l) in
    if is_empty r.0 then some (r.1, l) else rest
