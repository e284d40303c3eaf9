-- ===== src/Transformers/Chain.antt =====
-- A chain that the factory of src/transformers/Factory.h builds step by step acts like its steps,
-- one after the other.
use csv_to_kafka_using_cpp.Prelude.{Bool, true, false, List, [], ◌∷◌, ◌++◌, ◌≡◌, refl, sym, ap, ◌∙◌}
use csv_to_kafka_using_cpp.Prelude.Text.{Text}
use csv_to_kafka_using_cpp.Prelude.Dict.{Dict}
use csv_to_kafka_using_cpp.Csv.Row.{CsvRow, set_column}
use csv_to_kafka_using_cpp.Transformers.{
  Transformer, null, base_transformer, decorator_unuuid, decorator_map, decorator_append,
  decorator_prepend, decorator_set, base_operation, unuuid_operation, map_operation,
  append_operation, prepend_operation, operation,
}

-- One configured transformation, with its column.
pub data Transformation : Type 0 where
  void_of unuuid_of : Text → Transformation
  map_of : Text → Dict Text → Transformation
  append_of prepend_of set_of : Text → Text → Transformation

-- What it does to a row by itself.
pub transform : Transformation → CsvRow → CsvRow
transform (void_of c) row = base_operation c row
transform (unuuid_of c) row = unuuid_operation c row
transform (map_of c lookup) row = map_operation c lookup row
transform (append_of c from) row = append_operation c from row
transform (prepend_of c from) row = prepend_operation c from row
transform (set_of c v) row = set_column row c v

pub transform_all : List Transformation → CsvRow → CsvRow
transform_all [] row = row
transform_all (t ∷ ts) row = transform_all ts (transform t row)

-- The object for a transformation that wraps another one.
unfoldable pub wrap : Transformation → Transformer → Transformer
wrap (void_of c) wrapped = base_transformer c
wrap (unuuid_of c) wrapped = decorator_unuuid c wrapped
wrap (map_of c lookup) wrapped = decorator_map c lookup wrapped
wrap (append_of c from) wrapped = decorator_append c from wrapped
wrap (prepend_of c from) wrapped = decorator_prepend c from wrapped
wrap (set_of c v) wrapped = decorator_set c v wrapped

unfoldable pub chain : Transformer → List Transformation → Transformer
chain last [] = last
chain last (t ∷ ts) = chain (wrap t last) ts

-- The transformations that a chain keeps: those from the last `void` on, or all.
pub kept : List Transformation → List Transformation → List Transformation
kept before [] = before
kept before (void_of c ∷ ts) = kept (void_of c ∷ []) ts
kept before (unuuid_of c ∷ ts) = kept (before ++ unuuid_of c ∷ []) ts
kept before (map_of c l ∷ ts) = kept (before ++ map_of c l ∷ []) ts
kept before (append_of c f ∷ ts) = kept (before ++ append_of c f ∷ []) ts
kept before (prepend_of c f ∷ ts) = kept (before ++ prepend_of c f ∷ []) ts
kept before (set_of c v ∷ ts) = kept (before ++ set_of c v ∷ []) ts

abbrev pub is_void : Transformation → Bool
is_void (void_of c) = true
is_void _ = false

transform_all-concat :
    (ts : List Transformation) (t : Transformation) (row : CsvRow)
    → transform_all (ts ++ t ∷ []) row ≡ transform t (transform_all ts row)
unfolding transform_all
transform_all-concat [] t row = refl
transform_all-concat (s ∷ ts) t row = transform_all-concat ts t (transform s row)

-- `last` does what the transformations `before` do.
abbrev Does : Transformer → List Transformation → Type 0
Does last before = (row : CsvRow) → operation last row ≡ transform_all before row

module _ (last : Transformer) (before : List Transformation) (does : Does last before) where
  -- A decorator adds its own transformation behind those of what it wraps.
  Does-wrap : (t : Transformation) → is_void t ≡ false → Does (wrap t last) (before ++ t ∷ [])
  unfolding operation wrap transform
  Does-wrap (void_of c) v row = cc
  Does-wrap (unuuid_of c) v row =
      ap (unuuid_operation c) (does row) ∙ sym (transform_all-concat before _ row)
  Does-wrap (map_of c l) v row =
      ap (map_operation c l) (does row) ∙ sym (transform_all-concat before _ row)
  Does-wrap (append_of c f) v row =
      ap (append_operation c f) (does row) ∙ sym (transform_all-concat before _ row)
  Does-wrap (prepend_of c f) v row =
      ap (prepend_operation c f) (does row) ∙ sym (transform_all-concat before _ row)
  Does-wrap (set_of c w) v row =
      ap (λ r. set_column r c w) (does row) ∙ sym (transform_all-concat before _ row)

Does-void : (c : Text) (last : Transformer) → Does (wrap (void_of c) last) (void_of c ∷ [])
unfolding operation wrap transform transform_all
Does-void c last row = refl

chain-kept :
    (ts : List Transformation) (last : Transformer) (before : List Transformation)
    → Does last before
    → Does (chain last ts) (kept before ts)
unfolding chain kept
chain-kept [] last before d = d
chain-kept (void_of c ∷ ts) last before d = chain-kept ts _ _ (Does-void c last)
chain-kept (unuuid_of c ∷ ts) last before d =
    chain-kept ts _ _ (Does-wrap last before d (unuuid_of c) refl)
chain-kept (map_of c l ∷ ts) last before d =
    chain-kept ts _ _ (Does-wrap last before d (map_of c l) refl)
chain-kept (append_of c f ∷ ts) last before d =
    chain-kept ts _ _ (Does-wrap last before d (append_of c f) refl)
chain-kept (prepend_of c f ∷ ts) last before d =
    chain-kept ts _ _ (Does-wrap last before d (prepend_of c f) refl)
chain-kept (set_of c v ∷ ts) last before d =
    chain-kept ts _ _ (Does-wrap last before d (set_of c v) refl)

-- The chain of a configuration does its transformations in the order of the configuration, from
-- the last `void` on: those before it are lost.
pub operation-chain :
    (ts : List Transformation) (row : CsvRow)
    → operation (chain null ts) row ≡ transform_all (kept [] ts) row
unfolding operation transform_all
operation-chain ts row = chain-kept ts null [] (λ r. refl) row
