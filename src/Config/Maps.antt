-- ===== src/Config/Maps.antt =====
-- What `config_for_key` (src/config/ConfigParser.cpp) returns, and when.
use csv_to_kafka_using_cpp.Prelude.{
  true, false, Option, none, some, ap, ◌∙◌, List, [], ◌∷◌, ◌≡◌, refl, arith,
}
use csv_to_kafka_using_cpp.Prelude.Text.{Text, codes}
use csv_to_kafka_using_cpp.Prelude.Dict.{Dict, find, insert, insert_all, find-insert_all}
use csv_to_kafka_using_cpp.Prelude.Result.{Result, ok, undefined, ◌>>=◌}
use csv_to_kafka_using_cpp.Prelude.Int.{ℤ, atoi}
use csv_to_kafka_using_cpp.Config.{
  Yaml, max_age, max_age_from, is_scalar, is_map, has_key, scalars, config_for_key,
}

-- The largest age from the two settings, if both are there.
abbrev pub age_of : Option Text → Option Text → Result (Text × ℤ)
age_of none days = undefined
age_of (some column) none = undefined
age_of (some column) (some days) = atoi days >>= λ n. ok (column, n)

module _ (yaml : Yaml) where
  open yaml use {Node, node_type, child, entries, as_string}

  -- The pairs of a map node: those with a scalar value, read as strings, make `pairs`.
  pub data ReadsAs : List (Node × Node) → Dict Text → Type 0 where
    done : ReadsAs [] []
    skip :
        {key value : Node} {rest : List (Node × Node)} {pairs : Dict Text}
        → is_scalar (node_type value) ≡ false
        → ReadsAs rest pairs
        → ReadsAs ((key, value) ∷ rest) pairs
    read :
        {key value : Node} {rest : List (Node × Node)} {pairs : Dict Text} {k v : Text}
        → is_scalar (node_type value) ≡ true
        → as_string key ≡ ok k
        → as_string value ≡ ok v
        → ReadsAs rest pairs
        → ReadsAs ((key, value) ∷ rest) ((k, v) ∷ pairs)

  scalars-ReadsAs :
      {es : List (Node × Node)} {pairs : Dict Text} (result : Dict Text)
      → ReadsAs es pairs
      → scalars yaml es result ≡ ok (insert_all pairs result)
  unfolding scalars insert_all
  scalars-ReadsAs result done = refl
  scalars-ReadsAs result (skip s r) = rw s (scalars-ReadsAs result r)
  scalars-ReadsAs result (read {k} {v} s ek ev r) =
      rw s (rw ek (rw ev (scalars-ReadsAs (insert k v result) r)))

  -- A key of the configuration that holds a map gives the strings of its scalar values, where the
  -- first of several equal keys counts.
  pub config_for_key-ReadsAs :
      (m_config : Node) (k : Text) (pairs : Dict Text)
      → has_key yaml m_config k ≡ true
      → is_map (node_type (child m_config k)) ≡ true
      → ReadsAs (entries (child m_config k)) pairs
      → (result : Dict Text) × (config_for_key yaml m_config k ≡ ok result)
        × ((name : Text) → find name result ≡ find name pairs)
  unfolding config_for_key
  config_for_key-ReadsAs m_config k pairs h m r =
      (insert_all pairs [], rw h (rw m (scalars-ReadsAs [] r)), λ name. find-insert_all pairs name)

  max_age-config_for_key :
      (m_config : Node)
      → has_key yaml m_config (codes "max_age") ≡ true
      → max_age yaml m_config
        ≡ (config_for_key yaml m_config (codes "max_age") >>= max_age_from yaml)
  unfolding max_age
  max_age-config_for_key m_config h = rw (h, max_age) refl

  max_age_from-find :
      (result : Dict Text)
      → max_age_from yaml result
        ≡ age_of (find (codes "column") result) (find (codes "days") result)
  unfolding max_age_from
  max_age_from-find result = ground arith

  -- The largest age is the column with the number of days, the first of each, in the map of
  -- `max_age`. A map that lacks one of the two makes the call run off its end.
  pub max_age-ReadsAs :
      (m_config : Node) (pairs : Dict Text)
      → has_key yaml m_config (codes "max_age") ≡ true
      → is_map (node_type (child m_config (codes "max_age"))) ≡ true
      → ReadsAs (entries (child m_config (codes "max_age"))) pairs
      → max_age yaml m_config ≡ age_of (find (codes "column") pairs) (find (codes "days") pairs)
  max_age-ReadsAs m_config pairs h m r =
      let (result, e, same) = config_for_key-ReadsAs m_config (codes "max_age") pairs h m r in
      max_age-config_for_key m_config h
      ∙ ap (λ x. x >>= max_age_from yaml) e
      ∙ max_age_from-find result
      ∙ ap (λ o. age_of o (find (codes "days") result)) (same (codes "column"))
      ∙ ap (age_of (find (codes "column") pairs)) (same (codes "days"))
