-- ===== src/Csv/Row/RoundTrip.antt =====
-- Lines written with quotes are read back by `CSVRow::next` (src/csv/CSVRow.cpp).
use csv_to_kafka_using_cpp.Prelude.{
  ℕ, Bool, true, false, not, List, [], ◌∷◌, ◌++◌, map, ◌≡◌, refl, sym, ap, ◌∙◌, arith, ◌==◌,
  if◌then◌else◌, keep_if-all, all, all-append, append_assoc, append-nil,
}
use csv_to_kafka_using_cpp.Prelude.Text.{Text}
use csv_to_kafka_using_cpp.Csv.Row.{unquoted_field, quoted_field, is_line_end}
use csv_to_kafka_using_cpp.Csv.Row.Fields.{split, action, fields_of}

-- Each field of a line may be written in quotes or as it is.
pub data Style : Type 0 where
  plain quoted : Style

abbrev pub no_line_end : ℕ → Bool
no_line_end c = not (is_line_end c)

abbrev pub is_plain : ℕ → Bool
is_plain c = if c == b',' then false else if c == b'"' then false else no_line_end c

-- Quotes inside a quoted field are doubled.
unfoldable pub double_quotes : Text → Text
double_quotes [] = []
double_quotes (c ∷ cs) = let rest = double_quotes cs in if c == b'"' then c ∷ c ∷ rest else c ∷ rest

unfoldable pub write_field : Style → Text → Text
unfolding double_quotes
write_field plain t = t
write_field quoted t = b'"' ∷ (double_quotes t ++ b'"' ∷ [])

-- Text with no line end can be quoted; text with no comma and no quote too can be left plain.
abbrev pub IsWritable : Style → Text → Type 0
IsWritable plain t = all is_plain t ≡ true
IsWritable quoted t = all no_line_end t ≡ true

unfoldable pub write_line : Style × Text → List (Style × Text) → Text
unfolding write_field
write_line (s, t) [] = write_field s t
write_line (s, t) (f ∷ fs) = write_field s t ++ (b',' ∷ write_line f fs)

abbrev pub AreWritable : List (Style × Text) → Type 0
AreWritable [] = Unit
AreWritable ((s, t) ∷ fs) = IsWritable s t × AreWritable fs

split-plain :
    (t field rest : Text)
    → all is_plain t ≡ true
    → split unquoted_field field (t ++ rest) ≡ split unquoted_field (field ++ t) rest
unfolding split action
split-plain [] field rest h = rw append-nil
split-plain (c ∷ cs) field rest h =
    ground (arith, split-plain cs (field ++ c ∷ []) rest, append_assoc field (c ∷ []) cs)

split-double_quotes :
    (t field rest : Text)
    → split quoted_field field (double_quotes t ++ rest) ≡ split quoted_field (field ++ t) rest
unfolding split action double_quotes
split-double_quotes [] field rest = rw append-nil
split-double_quotes (c ∷ cs) field rest =
    ground (arith, split-double_quotes cs (field ++ c ∷ []) rest, append_assoc field (c ∷ []) cs)

split_quoted :
    (t rest : Text)
    → split unquoted_field [] (b'"' ∷ (double_quotes t ++ rest)) ≡ split quoted_field t rest
unfolding split action
split_quoted t rest = split-double_quotes t [] rest

split-write_field :
    (s : Style) (t rest : Text)
    → IsWritable s t
    → split unquoted_field [] (write_field s t ++ (b',' ∷ rest)) ≡ t ∷ split unquoted_field [] rest
unfolding write_field
split-write_field plain t rest h = split-plain t [] (b',' ∷ rest) h ∙ unfold split action in refl
split-write_field quoted t rest h =
    ap (λ x. split unquoted_field [] (b'"' ∷ x))
      (append_assoc (double_quotes t) (b'"' ∷ []) (b',' ∷ rest))
    ∙ split_quoted t (b'"' ∷ b',' ∷ rest)
    ∙ (unfold split action in refl)

split-write_field_last :
    (s : Style) (t : Text) → IsWritable s t → split unquoted_field [] (write_field s t) ≡ t ∷ []
unfolding write_field
split-write_field_last plain t h =
    ap (split unquoted_field []) (sym (append-nil t))
    ∙ split-plain t [] [] h
    ∙ (unfold split in refl)
split-write_field_last quoted t h = split_quoted t (b'"' ∷ []) ∙ (unfold split action in refl)

split-write_line :
    (s : Style) (t : Text) (fs : List (Style × Text))
    → AreWritable ((s, t) ∷ fs)
    → split unquoted_field [] (write_line (s, t) fs) ≡ t ∷ map (λ f. f.1) fs
unfolding write_line
split-write_line s t [] h = split-write_field_last s t h.0
split-write_line s t ((s', t') ∷ fs) h =
    split-write_field s t (write_line (s', t') fs) h.0 ∙ ap (◌∷◌ t) (split-write_line s' t' fs h.1)

all-double_quotes : (t : Text) → all no_line_end t ≡ true → all no_line_end (double_quotes t) ≡ true
unfolding double_quotes
all-double_quotes [] h = refl
all-double_quotes (c ∷ cs) h = ground (arith, all-double_quotes cs)

pub all_of_plain : (t : Text) → all is_plain t ≡ true → all no_line_end t ≡ true
all_of_plain [] h = refl
all_of_plain (c ∷ cs) h = ground (arith, all_of_plain cs)

all-write_field : (s : Style) (t : Text) → IsWritable s t → all no_line_end (write_field s t) ≡ true
unfolding write_field
all-write_field plain t h = all_of_plain t h
all-write_field quoted t h =
    all-append no_line_end (double_quotes t) (b'"' ∷ []) (all-double_quotes t h) refl

pub all-write_line :
    (s : Style) (t : Text) (fs : List (Style × Text))
    → AreWritable ((s, t) ∷ fs)
    → all no_line_end (write_line (s, t) fs) ≡ true
unfolding write_line
all-write_line s t [] h = all-write_field s t h.0
all-write_line s t ((s', t') ∷ fs) h =
    all-append no_line_end (write_field s t) (b',' ∷ write_line (s', t') fs)
      (all-write_field s t h.0) (all-write_line s' t' fs h.1)

-- A line written from fields with no line end, each in quotes or, if it has no comma and no
-- quote, plain, is split back into exactly those fields.
pub fields_of-write_line :
    (s : Style) (t : Text) (fs : List (Style × Text))
    → AreWritable ((s, t) ∷ fs)
    → fields_of (write_line (s, t) fs) ≡ t ∷ map (λ f. f.1) fs
fields_of-write_line s t fs h =
    ap (split unquoted_field [])
      (keep_if-all no_line_end (write_line (s, t) fs) (all-write_line s t fs h))
    ∙ split-write_line s t fs h
