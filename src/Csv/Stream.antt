-- ===== src/Csv/Stream.antt =====
-- `std::istream` and `std::getline`, as src/csv/CSVIterator.cpp and src/csv/CSVRow.cpp use them.
use csv_to_kafka_using_cpp.Prelude.{
  ℕ, Bool, true, false, not, ◌&&◌, Option, none, some, [], ◌∷◌, ◌==◌, if◌then◌else◌, is_empty,
}
use csv_to_kafka_using_cpp.Prelude.Text.{Text}

-- The characters not yet read, with the bits `eofbit` and `failbit`.
pub record Stream : Type 0 where
  pub rest : Text
  pub eof : Bool
  pub failed : Bool

unfoldable pub good : Stream → Bool
good s = not s.eof && not s.failed

-- `explicit operator bool`.
unfoldable pub succeeded : Stream → Bool
succeeded s = not s.failed

-- A file opened for reading, and a file that could not be opened.
abbrev pub opened : Text → Stream
opened t = record { rest = t; eof = false; failed = false }

abbrev pub not_opened : Stream
not_opened = record { rest = []; eof = false; failed = true }

-- The characters before the first delimiter, and those behind it if there is one.
unfoldable pub cut : ℕ → Text → Text × Option Text
cut d [] = ([], none)
cut d (c ∷ cs) = let r = cut d cs in if c == d then ([], some cs) else (c ∷ r.0, r.1)

extracted : Text × Option Text → Stream × Text
extracted (line, some after) = (record { rest = after; eof = false; failed = false }, line)
extracted (line, none) = (record { rest = []; eof = true; failed = is_empty line }, line)

-- `std::getline(stream, str, d)`: a stream that is not good leaves the string as it was.
unfoldable pub getline : ℕ → Stream → Text → Stream × Text
unfolding good cut extracted
getline d s old = if good s then extracted (cut d s.rest) else (record s { failed = true }, old)
