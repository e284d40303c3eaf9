-- ===== src/Config/Transforms.antt =====
-- `ConfigParser::transformers` (src/config/ConfigParser.cpp).
pub mod Chained
use csv_to_kafka_using_cpp.Prelude.{Bool, true, false, List, [], ◌∷◌, if◌then◌else◌, ◌||◌}
use csv_to_kafka_using_cpp.Prelude.Text.{Text, codes, text_eq}
use csv_to_kafka_using_cpp.Prelude.Dict.{Dict, insert}
use csv_to_kafka_using_cpp.Prelude.Result.{Result, ok, undefined, ◌>>=◌}
use csv_to_kafka_using_cpp.Transformers.{
  Transformer, null, base_transformer, decorator_unuuid, decorator_map, decorator_append,
  decorator_prepend, decorator_set, get_instance,
}
use csv_to_kafka_using_cpp.Config.{Yaml, is_defined}

-- The `dynamic_cast` to the class and the write of its member. A cast to another class gives the
-- null pointer, and the write through it is undefined.
unfoldable pub lookup_insert : Transformer → Text → Text → Result Transformer
lookup_insert (decorator_map column lookup wrapped) key value =
    ok (decorator_map column (insert key value lookup) wrapped)
lookup_insert _ key value = undefined

unfoldable pub set_append_from : Transformer → Text → Result Transformer
set_append_from (decorator_append column _ wrapped) from = ok (decorator_append column from wrapped)
set_append_from _ from = undefined

unfoldable pub set_prepend_from : Transformer → Text → Result Transformer
set_prepend_from (decorator_prepend column _ wrapped) from =
    ok (decorator_prepend column from wrapped)
set_prepend_from _ from = undefined

unfoldable pub set_value : Transformer → Text → Result Transformer
set_value (decorator_set column _ wrapped) value = ok (decorator_set column value wrapped)
set_value _ value = undefined

-- The chain so far, `last_ptr`, and whether SIGINT was sent.
pub record Building : Type 0 where
  pub last_ptr : Transformer
  pub interrupted : Bool

-- The vector has one element at most: the chain, if it is not null.
unfoldable pub to_vector : Transformer → List Transformer
to_vector null = []
to_vector t = t ∷ []

module _ (yaml : Yaml) where
  open yaml use {Node, node_type, child, entries, elements, as_string}

  unfoldable pub read_lookup : Transformer → List (Node × Node) → Result Transformer
  unfolding lookup_insert
  read_lookup ptr [] = ok ptr
  read_lookup ptr ((k, v) ∷ rest) = do
    key ← as_string k
    value ← as_string v
    more ← lookup_insert ptr key value
    read_lookup more rest

  -- The members of a new transformer.
  unfoldable pub fill : Text → Transformer → Node → Result Transformer
  unfolding read_lookup set_append_from set_prepend_from set_value
  fill type ptr d =
      if text_eq type (codes "map")
      then read_lookup ptr (entries (child d (codes "lookup")))
      else if text_eq type (codes "append")
      then (as_string (child d (codes "from_column")) >>= set_append_from ptr)
      else if text_eq type (codes "prepend")
      then (as_string (child d (codes "from_column")) >>= set_prepend_from ptr)
      else if text_eq type (codes "set")
      then (as_string (child d (codes "value")) >>= set_value ptr)
      else ok ptr

  -- What is done with the pointer that the factory gives. The chain so far has been moved into
  -- the call, so it is lost where that is the null pointer.
  unfoldable pub keep_pointer : Bool → Text → Node → Transformer → Result Building
  unfolding fill
  keep_pointer interrupted type d null = ok (record { last_ptr = null; interrupted = true })
  keep_pointer interrupted type d ptr = do
    filled ← fill type ptr d
    ok (record { last_ptr = filled; interrupted = interrupted })

  -- The body of the loop.
  unfoldable pub add_transform : Node → Building → Result Building
  unfolding keep_pointer get_instance
  add_transform d b = do
    column ← as_string (child d (codes "column"))
    type ← as_string (child d (codes "type"))
    keep_pointer b.interrupted type d (get_instance type column b.last_ptr)

  unfoldable pub add_transforms : List Node → Building → Result Building
  unfolding add_transform
  add_transforms [] b = ok b
  add_transforms (d ∷ ds) b = do more ← add_transform d b; add_transforms ds more

  unfoldable pub transformers : Node → Result (List Transformer × Bool)
  unfolding add_transforms to_vector is_defined
  transformers m_config =
      let start : Building = record { last_ptr = null; interrupted = false } in
      if is_defined (node_type (child m_config (codes "transforms")))
      then (do
        b ← add_transforms (elements (child m_config (codes "transforms"))) start
        ok (to_vector b.last_ptr, b.interrupted))
      else ok ([], false)
