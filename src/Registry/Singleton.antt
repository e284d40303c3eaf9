-- ===== src/Registry/Singleton.antt =====
-- The life of the one `SchemaRegistry` (src/impl/SchemaRegistry.cpp).
use csv_to_kafka_using_cpp.Prelude.{false, Option, none, some, ◌≡◌, refl, arith, is_empty}
use csv_to_kafka_using_cpp.Prelude.Text.{Text}
use csv_to_kafka_using_cpp.Prelude.Result.{ok, undefined}
use csv_to_kafka_using_cpp.Registry.{
  Serdes, SchemaRegistry, new_registry, init, the_instance, fetch_value_schema_id,
}

module _ (serdes : Serdes) where
  -- A registry as a call of `init` or `instance` can have made it, or none yet.
  pub data Made : Option (SchemaRegistry serdes) → Type 0 where
    not_yet : Made none
    by_init :
        {m : Option (SchemaRegistry serdes)} (h : Text) → Made m → Made (some (init serdes m h))
    by_instance :
        {m : Option (SchemaRegistry serdes)} {i : SchemaRegistry serdes}
        → Made m
        → the_instance serdes m ≡ ok i
        → Made (some i)

  Made-initialized :
      {m : Option (SchemaRegistry serdes)} {i : SchemaRegistry serdes}
      → Made m
      → m ≡ some i
      → i.m_uninitialized ≡ false
  unfolding init the_instance
  Made-initialized not_yet e = cc
  Made-initialized (by_init {m = none} h r) e = ground arith
  Made-initialized (by_init {m = some j} h r) e = ground (arith, Made-initialized r refl)
  Made-initialized (by_instance {m = none} r k) e = ground arith
  Made-initialized (by_instance {m = some j} r k) e = ground (arith, Made-initialized r refl)

  -- `instance` never throws, whatever was called before it: not even before any `init`, when the
  -- object has no handle and a fetch for a non-empty name is undefined behaviour.
  pub the_instance_never_throws :
      {m : Option (SchemaRegistry serdes)}
      → Made m
      → (i : SchemaRegistry serdes) × (the_instance serdes m ≡ ok i)
        × (m ≡ none
            → (schema_name : Text) → is_empty schema_name ≡ false
            → fetch_value_schema_id serdes i schema_name ≡ undefined)
  unfolding the_instance fetch_value_schema_id
  the_instance_never_throws {m = none} r =
      (new_registry serdes none, refl, λ e name h. ground arith)
  the_instance_never_throws {m = some i} r = (i, rw (Made-initialized r refl), λ e name h. cc)
