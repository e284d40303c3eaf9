-- ===== src/Config.antt =====
-- src/config/ConfigParser.cpp: the configuration file, over an abstract YAML library.
pub mod Loading
pub mod Maps
pub mod Transforms
pub mod Schemas
use csv_to_kafka_using_cpp.Prelude.{
  ℕ, Bool, true, false, not, Option, none, some, List, [], ◌∷◌, if◌then◌else◌,
}
use csv_to_kafka_using_cpp.Prelude.Text.{Text, codes}
use csv_to_kafka_using_cpp.Prelude.Dict.{Dict, find, insert}
use csv_to_kafka_using_cpp.Prelude.Result.{Result, ok, throws, undefined, ◌>>=◌}
use csv_to_kafka_using_cpp.Prelude.Int.{ℤ, atoi}

-- `YAML::NodeType::value`
pub data NodeType : Type 0 where
  undefined_node null_node scalar_node sequence_node map_node : NodeType

-- What the parser uses of yaml-cpp.
pub record Yaml : Type 1 where
  pub Node : Type 0
  -- `Type()`
  pub node_type : Node → NodeType
  -- `operator[]` with a key, which gives a node of undefined type for a key that is not there.
  pub child : Node → Text → Node
  -- The pairs and the elements that an iterator visits.
  pub entries : Node → List (Node × Node)
  pub elements : Node → List Node
  -- `as<std::string>()`
  pub as_string : Node → Result Text

-- `NodeType::Undefined` is 0: `Type()` as a `bool`, and `IsDefined()`.
unfoldable pub is_defined : NodeType → Bool
is_defined undefined_node = false
is_defined _ = true

abbrev pub is_map : NodeType → Bool
is_map map_node = true
is_map _ = false

abbrev pub is_scalar : NodeType → Bool
is_scalar scalar_node = true
is_scalar _ = false

module _ (yaml : Yaml) where
  open yaml use {Node, node_type, child, entries, as_string}

  unfoldable pub has_key : Node → Text → Bool
  unfolding is_defined
  has_key m_config k = is_defined (node_type (child m_config k))

  -- The loop of `config_for_key` over the pairs of a map node: values that are no scalars are
  -- left out.
  unfoldable pub scalars : List (Node × Node) → Dict Text → Result (Dict Text)
  scalars [] result = ok result
  scalars ((key, value) ∷ rest) result =
      let skipped = scalars rest result in
      let taken = (do k ← as_string key; v ← as_string value; scalars rest (insert k v result)) in
      if is_scalar (node_type value) then taken else skipped

  -- `config_for_key`: where it sends SIGINT it does not return, but runs off its end.
  unfoldable pub config_for_key : Node → Text → Result (Dict Text)
  unfolding has_key scalars
  config_for_key m_config k =
      let node = child m_config k in
      if has_key m_config k
      then (if is_map (node_type node) then scalars (entries node) [] else undefined)
      else undefined

  abbrev pub column_map : Node → Result (Dict Text)
  column_map m_config = config_for_key m_config (codes "column_map")

  abbrev pub column_type_transforms_map : Node → Result (Dict Text)
  column_type_transforms_map m_config = config_for_key m_config (codes "column_type_transforms")

  abbrev pub kafka : Node → Result (Dict Text)
  kafka m_config = config_for_key m_config (codes "kafka")

  max_age_from : Dict Text → Result (Text × ℤ)
  max_age_from max_age_config = elim (find (codes "column") max_age_config) [
    | none ↦ undefined
    | some column ↦ elim (find (codes "days") max_age_config) [
      | none ↦ undefined
      | some days ↦ (atoi days >>= λ n. ok (column, n))
    ]
  ]

  -- `max_age`: it too runs off its end where it does not return a value.
  unfoldable pub max_age : Node → Result (Text × ℤ)
  unfolding has_key max_age_from
  max_age m_config =
      if has_key m_config (codes "max_age")
      then (config_for_key m_config (codes "max_age") >>= max_age_from)
      else undefined
