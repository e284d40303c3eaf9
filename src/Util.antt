-- ===== src/Util.antt =====
-- src/impl/Util.cpp.
pub mod Suffix
use csv_to_kafka_using_cpp.Prelude.{
  ℕ, zero, suc, ◌-◌, Bool, true, false, ◌&&◌, Option, none, some, List, [], ◌∷◌, ◌==◌, ltb,
  if◌then◌else◌, length,
}
use csv_to_kafka_using_cpp.Prelude.Text.{Text, codes, text_eq}
use csv_to_kafka_using_cpp.Prelude.Result.{
  Result, ok, throws, Exception, std_exception, std_string, c_string, unknown, ◌>>=◌,
}
use csv_to_kafka_using_cpp.Prelude.Int.{ℤ, stol, stoi}

abbrev pub drop : ℕ → Text → Text
drop zero t = t
drop (suc n) [] = []
drop (suc n) (c ∷ cs) = drop n cs

-- `0 == strncmp(s, t, n)`
strncmp_eq : ℕ → Text → Text → Bool
strncmp_eq zero s t = true
strncmp_eq (suc n) [] [] = true
strncmp_eq (suc n) (x ∷ xs) (y ∷ ys) = x == y && strncmp_eq n xs ys
strncmp_eq (suc n) _ _ = false

-- A `const char *` is the bytes up to the zero byte, or `none` for `NULL`.
unfoldable pub str_ends_with : Option Text → Option Text → Bool
unfolding strncmp_eq
str_ends_with none suffix = false
str_ends_with (some str) none = false
str_ends_with (some str) (some suffix) =
    let str_len = length str in
    let suffix_len = length suffix in
    if ltb str_len suffix_len
    then false
    else strncmp_eq suffix_len (drop (str_len - suffix_len) str) suffix

-- `std::stof` and `std::stod`, with the numbers that they give.
pub record Floats : Type 1 where
  pub Float : Type 0
  pub Double : Type 0
  pub stof : Text → Result Float
  pub stod : Text → Result Double

module _ (floats : Floats) where
  open floats use {Float, Double, stof, stod}

  -- `avro::GenericDatum`, made from a value of one of these types.
  pub data Datum : Type 0 where
    string_datum : Text → Datum
    float_datum : Float → Datum
    double_datum : Double → Datum
    int_datum long_datum : ℤ → Datum

-- The tests of `create_datum_for_type`, on Linux.
module _ (floats : Floats) where
  open floats use {stof, stod}

  unfoldable pub create_datum_for_type : Text → Text → Result (Datum floats)
  create_datum_for_type value type =
      if text_eq type (codes "string")
      then ok (string_datum value)
      else if text_eq type (codes "float")
      then (stof value >>= λ x. ok (float_datum x))
      else if text_eq type (codes "double")
      then (stod value >>= λ x. ok (double_datum x))
      else if text_eq type (codes "int")
      then (stoi value >>= λ x. ok (int_datum x))
      else if text_eq type (codes "long")
      then (stol value >>= λ x. ok (long_datum x))
      else throws (std_exception (codes "Unknown datum type"))

-- `what`: the null pointer makes it throw `std::bad_exception`.
unfoldable pub what : Option Exception → Result Text
what none = throws (std_exception (codes "std::bad_exception"))
what (some (std_exception e)) = ok e
what (some (std_string e)) = ok e
what (some (c_string e)) = ok e
what (some unknown) = ok (codes "who knows")
