-- ===== src/Config/Loading.antt =====
-- src/config/ConfigParser.cpp: the object and its file, and the functions that read a schema from a file
-- and its id over HTTP.
use csv_to_kafka_using_cpp.Prelude.{Bool, true, false, Option, none, some, ◌++◌, ◌≡◌, sym, ap}
use csv_to_kafka_using_cpp.Prelude.Text.{Text, codes}
use csv_to_kafka_using_cpp.Prelude.Result.{Result, ok, ◌>>=◌, >>=-eq-ok}
use csv_to_kafka_using_cpp.Prelude.Int.{ℤ, negsuc}
use csv_to_kafka_using_cpp.Csv.Stream.{Stream, opened, not_opened}

-- `m_config` is a node of yaml-cpp.
pub record ConfigParser (Node : Type 0) : Type 0 where
  pub m_config_file : Text
  pub m_config : Node

-- `YAML::LoadFile` is a parameter.
module _ {Node : Type 0} (load_file : Text → Result Node) where
  unfoldable pub new_parser : Text → Result (ConfigParser Node)
  new_parser config_file = do
    m_config ← load_file config_file
    ok (record { m_config_file = config_file; m_config = m_config })

  -- `instance`: the local `static`, if it has been made, and the file of this call. A constructor that
  -- throws leaves it unmade.
  unfoldable pub instance_of : Option (ConfigParser Node) → Text → Result (ConfigParser Node)
  unfolding new_parser
  instance_of none c = new_parser c
  instance_of (some i) c = ok i

  -- Once the object is made, the file of a call makes no difference.
  instance_of_once :
      (first later : Text) (i : ConfigParser Node)
      → instance_of none first ≡ ok i
      → (i.m_config_file ≡ first) × (instance_of (some i) later ≡ instance_of none first)
  unfolding instance_of new_parser
  instance_of_once first later i e =
      let (m_config, loaded, made) = >>=-eq-ok (load_file first) _ e in (cc, sym e)

-- `load_schema`, over `avro::compileJsonSchema` and the files there are.
unfoldable pub load_schema :
    {ValidSchema : Type 0}
    → (Stream → Result ValidSchema)
    → (Text → Option Text)
    → Text
    → Result ValidSchema
load_schema compile_json_schema files file = elim (files file) [
  | none ↦ compile_json_schema not_opened
  | some content ↦ compile_json_schema (opened content)
]

-- What `fetch_schema_id_rest` uses of cpprestsdk: `none` is a `json_exception`.
pub record Rest : Type 1 where
  pub Json : Type 0
  pub Object : Type 0
  -- `web::json::value()`
  pub null : Json
  pub as_object : Json → Option Object
  pub at : Object → Text → Option Json
  pub as_integer : Json → Option ℤ
  -- The constructors of `uri` and `http_client`, which may throw.
  pub make_client : Text → Result (Unit {0})

module _ (rest : Rest) where
  open rest use {Json, Object, null, as_object, at, as_integer, make_client}

  -- What `extract_json().get()` does.
  pub data Extracted : Type 0 where
    extracted : Json → Extracted
    no_json http_failed : Extracted

  -- The answer to a request: an `http_exception`, or a status, which may be `OK`, with a body.
  pub data Reply : Type 0 where
    no_reply : Reply
    reply : (is_ok : Bool) → Extracted → Reply

  pub data Fetched : Type 0 where
    fetched : Json → Fetched
    json_exception http_exception : Fetched

  -- The continuation of the request and `request_task.get()`.
  unfoldable pub received : Reply → Fetched
  received no_reply = http_exception
  received (reply false body) = fetched null
  received (reply true (extracted json_obj)) = fetched json_obj
  received (reply true no_json) = json_exception
  received (reply true http_failed) = fetched null

  -- `data.at("id").as_integer()`
  unfoldable id_in : Option Object → Option ℤ
  id_in none = none
  id_in (some data') = elim (at data' (codes "id")) [ none ↦ none | some id ↦ as_integer id ]

  unfoldable pub schema_url : Text → Text → Text
  schema_url name registry =
      registry ++ codes "/subjects/" ++ name ++ codes "-value/versions/latest"

  -- The id, and whether SIGINT is sent.
  unfoldable id_or_interrupt : Option ℤ → ℤ × Bool
  id_or_interrupt none = (negsuc 0, true)
  id_or_interrupt (some id) = (id, false)

  unfoldable id_of : Fetched → ℤ × Bool
  unfolding id_in id_or_interrupt
  id_of json_exception = id_or_interrupt none
  id_of http_exception = id_or_interrupt none
  id_of (fetched json_obj) = id_or_interrupt (id_in (as_object json_obj))

  -- `fetch_schema_id_rest`, where `request` answers for an address.
  unfoldable pub fetch_schema_id_rest : (Text → Reply) → Text → Text → Result (ℤ × Bool)
  unfolding received id_of schema_url
  fetch_schema_id_rest request name registry = do
    client ← make_client (schema_url name registry)
    ok (id_of (received (request (schema_url name registry))))

  -- SIGINT is sent only with the id -1.
  interrupted_id :
      (request : Text → Reply) (name registry : Text) (id : ℤ)
      → fetch_schema_id_rest request name registry ≡ ok (id, true)
      → id ≡ negsuc 0
  unfolding fetch_schema_id_rest id_or_interrupt id_of
  interrupted_id request name registry id h =
      let (client, made, same) = >>=-eq-ok (make_client (schema_url name registry)) _ h in
      of_fetched (received (request (schema_url name registry))) cc
    where
      of_option : (o : Option ℤ) → id_or_interrupt o ≡ (id, true) → id ≡ negsuc 0
      of_option none e = cc
      of_option (some n) e = cc

      of_fetched : (f : Fetched) → id_of f ≡ (id, true) → id ≡ negsuc 0
      of_fetched json_exception e = of_option none e
      of_fetched http_exception e = of_option none e
      of_fetched (fetched json_obj) e = of_option (id_in (as_object json_obj)) e

  -- An answer whose status is not `OK` has no id, where a null value is no object.
  fetch_schema_id_rest_refused :
      (request : Text → Reply) (name registry : Text) (body : Extracted)
      → as_object null ≡ none
      → make_client (schema_url name registry) ≡ ok tt
      → request (schema_url name registry) ≡ reply false body
      → fetch_schema_id_rest request name registry ≡ ok (negsuc 0, true)
  unfolding fetch_schema_id_rest received id_of id_or_interrupt id_in
  fetch_schema_id_rest_refused request name registry body n c r =
      rw (c, r) (ap (λ (o : Option Object). ok (id_or_interrupt (id_in o))) n)
