-- ===== src/Registry.antt =====
-- src/impl/SchemaRegistry.cpp, over an abstract libserdes.
pub mod Singleton
use csv_to_kafka_using_cpp.Prelude.{
  ℕ, Bool, true, false, ◌||◌, Option, none, some, List, [], ◌∷◌, ◌++◌, if◌then◌else◌, is_empty,
}
use csv_to_kafka_using_cpp.Prelude.Text.{Text, codes}
use csv_to_kafka_using_cpp.Prelude.Result.{Result, ok, throws, undefined, std_exception}
use csv_to_kafka_using_cpp.Prelude.Int.{ℤ, pos, negsuc}

-- What the registry uses of libserdes.
pub record Serdes : Type 1 where
  -- `Serdes::Avro *`
  pub Handle : Type 0
  -- `Conf::set` reports an error.
  pub set_fails : Text → Text → Bool
  -- `Avro::create`, after the two settings; `none` is the null pointer.
  pub create : Text → Option Handle
  -- The id of the schema that `Schema::get` and `Schema::add` find or make.
  pub get : Handle → Text → Option ℤ
  pub add : Handle → Text → Text → Option ℤ

module _ (serdes : Serdes) where
  open serdes use {Handle, set_fails, create, get, add}

  -- The members, and whether SIGINT was sent while they were made.
  pub record SchemaRegistry : Type 0 where
    pub m_uninitialized : Bool
    pub m_serdes : Option Handle
    pub interrupted : Bool

is_none {ℓ} : {A : Type ℓ} → Option A → Bool
is_none none = true
is_none (some a) = false

module _ (serdes : Serdes) where
  open serdes use {Handle, set_fails, create, get, add}

  -- The constructor. The object is a local `static`, so its storage is zero before: the flag is
  -- false and the pointer null, also where no host is given.
  unfoldable pub new_registry : Option Text → SchemaRegistry serdes
  unfolding is_none
  new_registry none = record { m_uninitialized = false; m_serdes = none; interrupted = false }
  new_registry (some h) = record {
    m_uninitialized = false;
    m_serdes = create h;
    interrupted =
        set_fails (codes "schema.registry.url") h
        || set_fails (codes "serializer.framing") (codes "cp1")
        || is_none (create h);
  }

  -- `instance_impl`: the object is made by the first call, and later hosts are ignored. The first
  -- argument is the object, if it has been made.
  unfoldable pub instance_impl :
      Option (SchemaRegistry serdes) → Option Text → SchemaRegistry serdes
  unfolding new_registry
  instance_impl none h = new_registry h
  instance_impl (some i) h = i

  unfoldable pub init : Option (SchemaRegistry serdes) → Text → SchemaRegistry serdes
  unfolding instance_impl
  init made h = instance_impl made (some h)

  unfoldable pub the_instance : Option (SchemaRegistry serdes) → Result (SchemaRegistry serdes)
  unfolding instance_impl
  the_instance made =
      let i = instance_impl made none in
      if i.m_uninitialized
      then throws (std_exception (codes "SchemaRegistry was not initialized"))
      else ok i

  abbrev no_id : ℤ
  no_id = negsuc 0

  unfoldable pub fetch_value_schema_id : SchemaRegistry serdes → Text → Result ℤ
  fetch_value_schema_id i schema_name = if is_empty schema_name then ok no_id else elim i.m_serdes [
    | none ↦ undefined
    | some h ↦ elim (get h (schema_name ++ codes "-value")) [ some id ↦ ok id | none ↦ ok no_id ]
  ]

  -- Where the registry refuses the schema, the message asks the null pointer for its id.
  unfoldable pub register_value_schema : SchemaRegistry serdes → Text → Text → Result ℤ
  register_value_schema i schema_name schema_def = elim i.m_serdes [
    | none ↦ undefined
    | some h ↦ elim (add h (schema_name ++ codes "-value") schema_def) [
      | some id ↦ ok id
      | none ↦ undefined
    ]
  ]
