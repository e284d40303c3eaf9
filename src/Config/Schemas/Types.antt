-- ===== src/Config/Schemas/Types.antt =====
-- The types that the schema declares (src/config/ConfigParser.cpp, `assemble_schema`) against
-- those of the values (src/impl/Util.cpp, `create_datum_for_type`).
use csv_to_kafka_using_cpp.Prelude.{Bool, true, false, ◌||◌, ◌≡◌, refl, arith, Bool-cases, inl, inr}
use csv_to_kafka_using_cpp.Prelude.Text.{Text, codes, text_eq, text_eq_iff}
use csv_to_kafka_using_cpp.Prelude.Result.{ok, throws, std_exception, Result-cases}
use csv_to_kafka_using_cpp.Prelude.Int.{stoi, stol}
use csv_to_kafka_using_cpp.Util.{
  Floats, Datum, string_datum, float_datum, double_datum, int_datum, long_datum,
  create_datum_for_type,
}
use csv_to_kafka_using_cpp.Config.Schemas.{
  AvroType, string_schema, float_schema, double_schema, int_schema, long_schema, field_schema,
}

-- The five type names of the README.
abbrev pub is_known : Text → Bool
is_known type =
    text_eq type (codes "string")
    || text_eq type (codes "float")
    || text_eq type (codes "double")
    || text_eq type (codes "int")
    || text_eq type (codes "long")

module _ (floats : Floats) where
  -- The schema that a value belongs to.
  abbrev pub datum_schema : Datum floats → AvroType
  datum_schema (string_datum x) = string_schema
  datum_schema (float_datum x) = float_schema
  datum_schema (double_datum x) = double_schema
  datum_schema (int_datum x) = int_schema
  datum_schema (long_datum x) = long_schema

  string_type :
      (type : Text) → text_eq type (codes "string") ≡ true → field_schema type ≡ string_schema
  unfolding field_schema text_eq
  string_type type s =
      let e : type ≡ codes "string" = (text_eq_iff type (codes "string")).0 s in rw e refl

  known_datum :
      (value type : Text) (d : Datum floats)
      → create_datum_for_type floats value type ≡ ok d
      → datum_schema d ≡ field_schema type
  unfolding create_datum_for_type field_schema
  known_datum value type d e = elim (Bool-cases (text_eq type (codes "string"))) [
    | inl s ↦ ground (arith, string_type type s)
    | inr s ↦ ground (
      arith,
      Result-cases (floats.stof value),
      Result-cases (floats.stod value),
      Result-cases (stoi value),
      Result-cases (stol value),
    )
  ]

  -- A value that is made for a column has the type that the schema declares for the column. For a
  -- type name that is none of the five the schema declares a string, and every value is refused
  -- by an exception.
  pub datum-field_schema :
      (value type : Text)
      → ((d : Datum floats)
          → create_datum_for_type floats value type ≡ ok d
          → datum_schema d ≡ field_schema type)
        × (is_known type ≡ false
            → (field_schema type ≡ string_schema)
              × (create_datum_for_type floats value type
                  ≡ throws (std_exception (codes "Unknown datum type"))))
  unfolding create_datum_for_type field_schema
  datum-field_schema value type = (known_datum value type, λ u. ground arith)
