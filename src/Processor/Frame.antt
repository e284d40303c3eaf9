-- ===== src/Processor/Frame.antt =====
-- `CsvProcessor::serialize` (src/impl/CsvProcessor.cpp): the framing of a message.
use csv_to_kafka_using_cpp.Prelude.{
  ℕ, ◌+◌, ◌*◌, ◌/◌, ◌%◌, ◌^◌, ◌<◌, true, Option, none, some, [], ◌∷◌, ◌++◌, ◌≡◌, refl, ap, ◌∙◌,
  arith, ltb, if◌then◌else◌, length, length-append,
}
use csv_to_kafka_using_cpp.Prelude.Text.{Text}
use csv_to_kafka_using_cpp.Prelude.Int.{ℤ, pos, negsuc, pattern32, signed32, fits}
use csv_to_kafka_using_cpp.Util.{Floats, drop}
use csv_to_kafka_using_cpp.Config.Schemas.{Avro, encoded, refused}

-- The bytes that `htonl` and `memcpy` put behind the magic byte.
unfoldable pub network_bytes : ℤ → Text
network_bytes id =
    (pattern32 id / 2 ^ 24 % 256)
    ∷ (pattern32 id / 2 ^ 16 % 256)
    ∷ (pattern32 id / 2 ^ 8 % 256)
    ∷ (pattern32 id % 256)
    ∷ []

-- The result of `serialize`: -1 and an error text, or the new size; and `out`.
pub data Serialized : Type 0 where
  failed : Text → Serialized
  written : ℕ → Text → Serialized

module _ {floats : Floats} (avro : Avro floats) where
  open avro use {ValidSchema, Record, encode}

  unfoldable pub serialize : ValidSchema → ℤ → Record → Text → Serialized
  unfolding network_bytes
  serialize schema schema_id datum out = elim (encode schema datum) [
    | refused e ↦ failed e
    | encoded bytes ↦
        let framed = out ++ (0 ∷ (network_bytes schema_id ++ bytes)) in
        written (length framed) framed
  ]

-- A reader of the wire format: magic byte 0, the schema id in network order, the Avro bytes.
pub read_frame : Text → Option (ℤ × Text)
read_frame (m ∷ a ∷ b ∷ c ∷ d ∷ bytes) =
    if ltb 0 m then none else some (signed32 (a * 2 ^ 24 + b * 2 ^ 16 + c * 2 ^ 8 + d), bytes)
read_frame _ = none

join_bytes :
    (p : ℕ)
    → p < 2 ^ 32
    → p / 2 ^ 24 % 256 * 2 ^ 24 + p / 2 ^ 16 % 256 * 2 ^ 16 + p / 2 ^ 8 % 256 * 2 ^ 8 + p % 256 ≡ p
join_bytes p h = omega arith

signed32-network_bytes :
    (id : ℤ)
    → fits 32 id ≡ true
    → signed32 (
        pattern32 id / 2 ^ 24 % 256 * 2 ^ 24
        + pattern32 id / 2 ^ 16 % 256 * 2 ^ 16
        + pattern32 id / 2 ^ 8 % 256 * 2 ^ 8
        + pattern32 id % 256)
      ≡ id
signed32-network_bytes (pos n) h =
    let small : n < 2 ^ 31 = ground arith in
    ap signed32 (join_bytes (pattern32 (pos n)) (omega arith)) ∙ ground arith
signed32-network_bytes (negsuc n) h =
    let small : n < 2 ^ 31 = ground arith in
    ap signed32 (join_bytes (pattern32 (negsuc n)) (omega arith)) ∙ ground arith

drop_out : (s t : Text) → drop (length s) (s ++ t) ≡ t
drop_out [] t = refl
drop_out (c ∷ cs) t = drop_out cs t

module _ {floats : Floats} (avro : Avro floats) where
  open avro use {ValidSchema, Record, encode}

  -- `serialize` appends one frame to what `out` holds, five bytes longer than the Avro bytes, and
  -- returns the new size. A reader of the frame gets the schema id and the Avro bytes back, for
  -- every id that is an `int32_t`.
  pub serialize-read_frame :
      (schema : ValidSchema) (id : ℤ) (datum : Record) (out bytes : Text)
      → fits 32 id ≡ true
      → encode schema datum ≡ encoded bytes
      → (framed : Text) × (serialize avro schema id datum out
          ≡ written (length out + 5 + length bytes) framed)
        × (read_frame (drop (length out) framed) ≡ some (id, bytes))
  unfolding serialize read_frame network_bytes
  serialize-read_frame schema id datum out bytes f e = (
    out ++ (0 ∷ (network_bytes id ++ bytes)),
    ground (
      arith,
      length-append out (0 ∷ (network_bytes id ++ bytes)),
      length-append (network_bytes id) bytes,
    ),
    rw (drop_out out (0 ∷ (network_bytes id ++ bytes))) (rw (signed32-network_bytes id f)),
  )
