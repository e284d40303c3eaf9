-- ===== src/Tests/Instances.antt =====
-- Small stand-ins for the libraries that the program calls.
use csv_to_kafka_using_cpp.Prelude.{
  ℕ, ◌+◌, Bool, false, none, some, List, [], ◌∷◌, ◌++◌, if◌then◌else◌, length,
}
use csv_to_kafka_using_cpp.Prelude.Text.{Text, codes, text_eq}
use csv_to_kafka_using_cpp.Prelude.Dict.{Dict}
use csv_to_kafka_using_cpp.Prelude.Result.{ok, throws, std_exception}
use csv_to_kafka_using_cpp.Prelude.Int.{pos}
use csv_to_kafka_using_cpp.Util.{Floats, Datum, string_datum}
use csv_to_kafka_using_cpp.Registry.{Serdes}
use csv_to_kafka_using_cpp.Config.{
  Yaml, NodeType, undefined_node, scalar_node, sequence_node, map_node,
}
use csv_to_kafka_using_cpp.Config.Schemas.{Avro, AvroType, encoded, refused}
use csv_to_kafka_using_cpp.Processor.State.{Library}

abbrev pub floats : Floats
floats = record { Float = ℕ; Double = ℕ; stof = λ t. ok (length t); stod = λ t. ok (length t) }

abbrev pub datum_text : Datum floats → Text
datum_text (string_datum t) = t
datum_text _ = []

abbrev encode_fields : Dict (Datum floats) → Text
encode_fields [] = []
encode_fields ((name, d) ∷ rest) = datum_text d ++ encode_fields rest

-- A record is the fields set so far, and is encoded as their texts. One with no field is refused.
abbrev pub avro : Avro floats
avro = record {
  ValidSchema = List (Text × AvroType);
  no_schema = [];
  compile = λ name fields. ok fields;
  to_json = λ schema. [];
  Record = Dict (Datum floats);
  new_record = λ schema. [];
  set_field = λ r name d. ok (r ++ (name, d) ∷ []);
  encode = λ schema r. elim r [
    | [] ↦ refused (codes "empty")
    | f ∷ fs ↦ encoded (encode_fields (f ∷ fs))
  ];
}

abbrev pub serdes : Serdes
serdes = record {
  Handle = Text;
  set_fails = λ name value. false;
  create = λ url. some url;
  get = λ handle name. some (pos 7);
  add = λ handle name definition. some (pos 8);
}

abbrev pub library : Library
library = record {
  floats = floats;
  avro = avro;
  serdes = serdes;
  time = λ n. pos (1700000000 + n);
  max_age_config = none;
}

-- YAML documents, without tags and anchors.
mutual
  pub data Tree : Type 0 where
    missing : Tree
    scalar : Text → Tree
    sequence mapping : Items → Tree

  pub data Items : Type 0 where
    no_items : Items
    item : Tree → Tree → Items → Items

abbrev tree_type : Tree → NodeType
tree_type missing = undefined_node
tree_type (scalar t) = scalar_node
tree_type (sequence xs) = sequence_node
tree_type (mapping xs) = map_node

abbrev is_key : Text → Tree → Bool
is_key k (scalar t) = text_eq t k
is_key k _ = false

abbrev item_for : Text → Items → Tree
item_for k no_items = missing
item_for k (item key value rest) =
    let later = item_for k rest in if is_key k key then value else later

abbrev tree_child : Tree → Text → Tree
tree_child (mapping xs) k = item_for k xs
tree_child _ k = missing

abbrev pairs_of : Items → List (Tree × Tree)
pairs_of no_items = []
pairs_of (item key value rest) = (key, value) ∷ pairs_of rest

abbrev values_of : Items → List Tree
values_of no_items = []
values_of (item key value rest) = value ∷ values_of rest

abbrev pub yaml : Yaml
yaml = record {
  Node = Tree;
  node_type = tree_type;
  child = tree_child;
  entries = λ t. elim t [ mapping xs ↦ pairs_of xs | _ ↦ [] ];
  elements = λ t. elim t [ sequence xs ↦ values_of xs | _ ↦ [] ];
  as_string = λ t. elim t [ scalar s ↦ ok s | _ ↦ throws (std_exception (codes "bad conversion")) ];
}

-- An entry of a map, and an element of a sequence.
abbrev pub entry : Text → Tree → Items → Items
entry k v rest = item (scalar k) v rest

abbrev pub member : Tree → Items → Items
member v rest = item missing v rest
