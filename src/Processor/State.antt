-- ===== src/Processor/State.antt =====
-- What `CsvProcessor` (src/impl/CsvProcessor.cpp) shares with the rest of the program, and what a
-- call of `publish` can do with it.
use csv_to_kafka_using_cpp.Prelude.{ℕ, Bool, Option, List}
use csv_to_kafka_using_cpp.Prelude.Text.{Text}
use csv_to_kafka_using_cpp.Prelude.Dict.{Dict}
use csv_to_kafka_using_cpp.Prelude.Result.{Exception, Result, ok, throws, undefined}
use csv_to_kafka_using_cpp.Prelude.Int.{ℤ}
use csv_to_kafka_using_cpp.Util.{Floats}
use csv_to_kafka_using_cpp.Registry.{Serdes, SchemaRegistry}
use csv_to_kafka_using_cpp.Config.Schemas.{Avro, SchemaConfig}

-- What one call of `produce` returns.
pub data ErrorCode : Type 0 where
  no_error queue_full other_error : ErrorCode

pub record Message : Type 0 where
  pub topic : Text
  pub value : Text
  pub key : Text

-- The libraries, the clock `time(NULL)` by its readings, and the configured largest age.
pub record Library : Type 1 where
  pub floats : Floats
  pub avro : Avro floats
  pub serdes : Serdes
  pub time : ℕ → ℤ
  pub max_age_config : Option (Text × ℤ)

module _ (library : Library) where
  open library use {floats, avro, serdes}

  -- `responses` are the answers of the producer that are still to come: for each message those
  -- of the calls of `produce` for it. `produced` are the messages that it has taken, in order.
  pub record World : Type 0 where
    pub m_schemas : Dict (SchemaConfig avro)
    pub registry : Option (SchemaRegistry serdes)
    pub responses : List (List ErrorCode)
    pub produced : List Message
    pub polls : ℕ
    pub flushes : ℕ
    pub readings : ℕ
    pub old_count : ℕ
    pub interrupted : Bool

-- How a call ends: with a value, with an exception, with undefined behaviour, or not before the
-- producer gives more answers than `responses` holds.
pub data Outcome (A : Type 0) : Type 0 where
  value : A → Outcome A
  raised : Exception → Outcome A
  crashed : Outcome A
  waiting : Outcome A

-- A computation on a state, which keeps its changes where it raises an exception.
abbrev pub M : Type 0 → Type 0 → Type 0
M S A = S → S × Outcome A

module _ {S A B : Type 0} where
  abbrev pub continue : S × Outcome A → (A → M S B) → S × Outcome B
  continue (s, value a) f = f a s
  continue (s, raised e) f = (s, raised e)
  continue (s, crashed) f = (s, crashed)
  continue (s, waiting) f = (s, waiting)

  infixl 5 ◌>>=◌
  abbrev pub ◌>>=◌ : M S A → (A → M S B) → M S B
  ◌>>=◌ m f s = continue (m s) f

module _ {S A : Type 0} where
  abbrev pub pure : A → M S A
  pure a s = (s, value a)

  -- A call of pure code.
  abbrev pub lift : Result A → M S A
  lift (ok a) s = (s, value a)
  lift (throws e) s = (s, raised e)
  lift undefined s = (s, crashed)
