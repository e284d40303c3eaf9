-- ===== src/Config/Transforms/Chained.antt =====
-- The transformations of a configuration act on a row in their order
-- (src/config/ConfigParser.cpp, `transformers`, and src/transformers/Factory.h).
use csv_to_kafka_using_cpp.Prelude.{true, false, List, [], ◌∷◌, ◌≡◌, refl, ◌∙◌}
use csv_to_kafka_using_cpp.Prelude.Text.{Text, codes, text_eq}
use csv_to_kafka_using_cpp.Prelude.Dict.{Dict, insert, insert_all}
use csv_to_kafka_using_cpp.Prelude.Result.{ok}
use csv_to_kafka_using_cpp.Csv.Row.{CsvRow}
use csv_to_kafka_using_cpp.Transformers.{Transformer, null, decorator_map, operation, operations}
use csv_to_kafka_using_cpp.Transformers.Chain.{
  Transformation, void_of, unuuid_of, map_of, append_of, prepend_of, set_of, wrap, chain, kept,
  transform_all, operation-chain,
}
use csv_to_kafka_using_cpp.Config.{Yaml, is_defined}
use csv_to_kafka_using_cpp.Config.Transforms.{
  Building, read_lookup, add_transform, add_transforms, to_vector, transformers,
}

module _ (yaml : Yaml) where
  open yaml use {Node, node_type, child, entries, elements, as_string}

  -- The pairs of a `lookup`, read as strings.
  pub data Pairs : List (Node × Node) → Dict Text → Type 0 where
    no_pair : Pairs [] []
    pair :
        {k v : Node} {rest : List (Node × Node)} {key value : Text} {pairs : Dict Text}
        → as_string k ≡ ok key
        → as_string v ≡ ok value
        → Pairs rest pairs
        → Pairs ((k, v) ∷ rest) ((key, value) ∷ pairs)

  abbrev pub HasText : Node → Text → Text → Type 0
  HasText d key value = as_string (child d key) ≡ ok value

  -- An element of `transforms` that describes a transformation.
  pub data Describes (d : Node) : Transformation → Type 0 where
    void_element :
        {c : Text}
        → HasText d (codes "column") c
        → HasText d (codes "type") (codes "void")
        → Describes d (void_of c)
    unuuid_element :
        {c : Text}
        → HasText d (codes "column") c
        → HasText d (codes "type") (codes "unuuid")
        → Describes d (unuuid_of c)
    map_element :
        {c : Text} {pairs lookup : Dict Text}
        → HasText d (codes "column") c
        → HasText d (codes "type") (codes "map")
        → Pairs (entries (child d (codes "lookup"))) pairs
        → lookup ≡ insert_all pairs []
        → Describes d (map_of c lookup)
    append_element :
        {c from : Text}
        → HasText d (codes "column") c
        → HasText d (codes "type") (codes "append")
        → HasText d (codes "from_column") from
        → Describes d (append_of c from)
    prepend_element :
        {c from : Text}
        → HasText d (codes "column") c
        → HasText d (codes "type") (codes "prepend")
        → HasText d (codes "from_column") from
        → Describes d (prepend_of c from)
    set_element :
        {c value : Text}
        → HasText d (codes "column") c
        → HasText d (codes "type") (codes "set")
        → HasText d (codes "value") value
        → Describes d (set_of c value)

  pub data DescribeAll : List Node → List Transformation → Type 0 where
    no_element : DescribeAll [] []
    element :
        {d : Node} {ds : List Node} {t : Transformation} {ts : List Transformation}
        → Describes d t
        → DescribeAll ds ts
        → DescribeAll (d ∷ ds) (t ∷ ts)

  read_lookup-Pairs :
      (c : Text) (lookup : Dict Text) (wrapped : Transformer) {es : List (Node × Node)}
      {pairs : Dict Text}
      → Pairs es pairs
      → read_lookup yaml (decorator_map c lookup wrapped) es
        ≡ ok (decorator_map c (insert_all pairs lookup) wrapped)
  unfolding read_lookup insert_all
  read_lookup-Pairs c lookup wrapped no_pair = refl
  read_lookup-Pairs c lookup wrapped (pair {key} {value} k v r) =
      rw k (rw v (read_lookup-Pairs c (insert key value lookup) wrapped r))

  add_transform-Describes :
      {d : Node} {t : Transformation} (b : Building)
      → Describes d t
      → add_transform yaml d b ≡ ok (record b { last_ptr = wrap t b.last_ptr })
  unfolding add_transform wrap text_eq
  add_transform-Describes b (void_element c t) = rw c (rw t refl)
  add_transform-Describes b (unuuid_element c t) = rw c (rw t refl)
  add_transform-Describes b (map_element {c = col} c t p e) =
      rw c (rw t (rw (read_lookup-Pairs col [] b.last_ptr p) (rw e)))
  add_transform-Describes b (append_element c t f) = rw c (rw t (rw f refl))
  add_transform-Describes b (prepend_element c t f) = rw c (rw t (rw f refl))
  add_transform-Describes b (set_element c t f) = rw c (rw t (rw f refl))

  add_transforms-DescribeAll :
      {ds : List Node} {ts : List Transformation} (b : Building)
      → DescribeAll ds ts
      → add_transforms yaml ds b ≡ ok (record b { last_ptr = chain b.last_ptr ts })
  unfolding add_transforms chain
  add_transforms-DescribeAll b no_element = refl
  add_transforms-DescribeAll b (element {t} d r) =
      rw (add_transform-Describes b d)
        (add_transforms-DescribeAll (record b { last_ptr = wrap t b.last_ptr }) r)

operations-to_vector :
    (t : Transformer) (row : CsvRow) → operations (to_vector t) row ≡ operation t row
unfolding operations to_vector operation
operations-to_vector null row = refl
operations-to_vector _ row = refl

module _ (yaml : Yaml) where
  open yaml use {Node, node_type, child, elements}

  -- Where every element of `transforms` describes a transformation, `transformers` returns, sends
  -- no signal, and what it returns does those transformations to a row in the order of the
  -- configuration, from the last `void` on: `void` drops those before it.
  pub transformers-transform_all :
      (m_config : Node) (ts : List Transformation)
      → is_defined (node_type (child m_config (codes "transforms"))) ≡ true
      → DescribeAll yaml (elements (child m_config (codes "transforms"))) ts
      → (v : List Transformer) × (transformers yaml m_config ≡ ok (v, false))
        × ((row : CsvRow) → operations v row ≡ transform_all (kept [] ts) row)
  unfolding transformers
  transformers-transform_all m_config ts defined all = (
    to_vector (chain null ts),
    rw defined (
        rw (add_transforms-DescribeAll yaml (record { last_ptr = null; interrupted = false }) all)),
    λ row. operations-to_vector (chain null ts) row ∙ operation-chain ts row,
  )
