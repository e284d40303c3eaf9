-- ===== src/Csv/Iterator/Header.antt =====
-- The header is split as a row is (src/csv/CSVIterator.cpp, `set_columns`).
use csv_to_kafka_using_cpp.Prelude.{
  ℕ, zero, suc, ◌<◌, Bool, true, not, Option, none, some, List, [], ◌∷◌, ◌++◌, ◌≡◌, refl, arith,
  ◌==◌, length, all, append-nil, append_assoc, inl, inr, Option-cases, is_empty,
}
use csv_to_kafka_using_cpp.Prelude.Text.{Text}
use csv_to_kafka_using_cpp.Csv.Stream.{good, opened, cut, getline}
use csv_to_kafka_using_cpp.Csv.Row.{unquoted_field, strip_line}
use csv_to_kafka_using_cpp.Csv.Row.Fields.{action, split, fields_of}
use csv_to_kafka_using_cpp.Csv.Iterator.{strip_column, read_columns, header_columns}

abbrev pub no_quote : ℕ → Bool
no_quote c = not (c == b'"')

strip_column-strip_line : (t : Text) → strip_column t ≡ strip_line t
strip_column-strip_line [] = refl
strip_column-strip_line (c ∷ cs) = ground (arith, strip_column-strip_line cs)

-- What is left behind the first delimiter is shorter, and has no new characters.
pub cut_shorter : (d : ℕ) (t after : Text) → (cut d t).1 ≡ some after → length after < length t
unfolding cut
cut_shorter d [] after e = cc
cut_shorter d (c ∷ cs) after e = ground (arith, cut_shorter d cs after)

cut-all :
    (p : ℕ → Bool) (d : ℕ) (t after : Text)
    → all p t ≡ true
    → (cut d t).1 ≡ some after
    → all p after ≡ true
unfolding cut
cut-all p d [] after h e = cc
cut-all p d (c ∷ cs) after h e = ground (arith, cut-all p d cs after)

-- The fields from the first piece, and those of what is behind its comma.
split_pieces : Text → Text → Option Text → List Text
split_pieces field piece none = (field ++ strip_line piece) ∷ []
split_pieces field piece (some after) = (field ++ strip_line piece) ∷ fields_of after

split-cut :
    (t field : Text)
    → all no_quote t ≡ true
    → split unquoted_field field (strip_line t) ≡ split_pieces field (cut b',' t).0 (cut b',' t).1
unfolding split action cut split_pieces
split-cut [] field h = rw append-nil
split-cut (c ∷ cs) field h = ground (
  arith,
  split-cut cs field,
  split-cut cs (field ++ c ∷ []),
  append_assoc field (c ∷ []) (strip_line (cut b',' cs).0),
  append-nil field,
)

-- At the end of the header the loop stops.
read_columns_ended :
    (fuel : ℕ) (failed : Bool)
    → read_columns fuel (record { rest = []; eof = true; failed = failed }) ≡ []
unfolding read_columns
read_columns_ended zero failed = refl
read_columns_ended (suc fuel) failed = refl

read_columns-split :
    (fuel : ℕ) (t : Text)
    → length t < fuel
    → all no_quote t ≡ true
    → read_columns fuel (opened t) ≡ fields_of t
unfolding read_columns getline good split_pieces
read_columns-split zero t f h = elim f [ ]
read_columns-split (suc fuel) t f h = elim (Option-cases (cut b',' t).1) [
  | inl e ↦ ground (
    arith,
    read_columns_ended fuel (is_empty (cut b',' t).0),
    split-cut t [],
    strip_column-strip_line (cut b',' t).0,
  )
  | inr (after, e) ↦ ground (
    arith,
    split-cut t [],
    strip_column-strip_line (cut b',' t).0,
    read_columns-split fuel after (omega (arith, cut_shorter b',' t after e))
        (cut-all no_quote b',' t after h e),
  )
]

-- A header with no quotes gives the columns that the same line gives as the fields of a row.
pub header_columns-fields_of :
    (header : Text) → all no_quote header ≡ true → header_columns header ≡ fields_of header
unfolding header_columns
header_columns-fields_of header h = read_columns-split (suc (length header)) header (omega arith) h
