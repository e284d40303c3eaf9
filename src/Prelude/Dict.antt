-- ===== src/Prelude/Dict.antt =====
-- `std::map<std::string, V>` and `std::set<std::string>`: association lists with ascending keys,
-- in the order in which the source iterates over them.
use mathlib.Core.Path.{◌≡◌, refl, ◌∙◌}
use mathlib.Core.Logic.{inl, inr}
use mathlib.Core.Bool.{Bool, true, false}
use mathlib.Core.Option.{Option, none, some}
use mathlib.Core.List.{List, [], ◌∷◌}
use native.Mathlib.Omega.{arith}
use csv_to_kafka_using_cpp.Prelude.Booleans.{ltb, if◌then◌else◌, Option-cases, Bool-cases}
use csv_to_kafka_using_cpp.Prelude.Text.{Text, text_eq, text_eq_iff}

-- `operator<` of `std::string`: the lexicographic order of the bytes.
unfoldable pub text_lt : Text → Text → Bool
text_lt [] [] = false
text_lt [] (y ∷ ys) = true
text_lt (x ∷ xs) [] = false
text_lt (x ∷ xs) (y ∷ ys) =
    let rest = text_lt xs ys in if ltb x y then true else if ltb y x then false else rest

abbrev pub Dict {ℓ} : Type ℓ → Type ℓ
Dict V = List (Text × V)

module _ {ℓ} {V : Type ℓ} where
  unfoldable pub find : Text → Dict V → Option V
  find k [] = none
  find k ((j, v) ∷ m) = if text_eq j k then some v else find k m

  place : Text → V → Dict V → Dict V
  place k v [] = (k, v) ∷ []
  place k v ((j, w) ∷ m) = if text_lt k j then (k, v) ∷ (j, w) ∷ m else (j, w) ∷ place k v m

  -- `insert` keeps the value of a key that is there.
  unfoldable pub insert : Text → V → Dict V → Dict V
  unfolding find place
  insert k v m = elim (find k m) [ some _ ↦ m | none ↦ place k v m ]

  find-place :
      (k x : Text) (v : V) (m : Dict V)
      → find k m ≡ none
      → find x (place k v m) ≡ (if text_eq k x then some v else find x m)
  unfolding find place
  find-place k x v [] h = refl
  find-place k x v ((j, w) ∷ m) h =
      ground (arith, text_eq_iff j k, text_eq_iff j x, text_eq_iff k x, find-place k x v m)

  -- The first of two values that is there.
  abbrev pub or_else : Option V → Option V → Option V
  or_else (some v) o = some v
  or_else none o = o

  pub find-insert :
      (k x : Text) (v : V) (m : Dict V)
      → find x (insert k v m) ≡ or_else (find x m) (if text_eq k x then some v else none)
  unfolding insert
  find-insert k x v m = elim (Option-cases (find k m)) [
    | inl e ↦ ground (arith, find-place k x v m, text_eq_iff k x)
    | inr (w, e) ↦ ground (arith, text_eq_iff k x)
  ]

  -- `insert` for each pair, in order.
  unfoldable pub insert_all : Dict V → Dict V → Dict V
  insert_all [] m = m
  insert_all ((k, v) ∷ rest) m = insert_all rest (insert k v m)

  find-insert_all_from :
      (pairs m : Dict V) (x : Text)
      → find x (insert_all pairs m) ≡ or_else (find x m) (find x pairs)
  unfolding insert_all find
  find-insert_all_from [] m x = ground arith
  find-insert_all_from ((k, v) ∷ rest) m x =
      find-insert_all_from rest (insert k v m) x ∙ ground (arith, find-insert k x v m)

  -- In a map made by `insert` alone the first value of a key stays.
  pub find-insert_all : (pairs : Dict V) (x : Text) → find x (insert_all pairs []) ≡ find x pairs
  unfolding find
  find-insert_all pairs x = find-insert_all_from pairs [] x

-- Every pair of the map satisfies the predicate.
abbrev pub AllValues {ℓ κ} : {V : Type ℓ} → (Text → V → Type κ) → Dict V → Type κ
AllValues P [] = Unit
AllValues P ((k, v) ∷ m) = P k v × AllValues P m

module _ {ℓ κ} {V : Type ℓ} (P : Text → V → Type κ) (k : Text) (v : V) (p : P k v) where
  place-All_values : (m : Dict V) → AllValues P m → AllValues P (place k v m)
  unfolding place
  place-All_values [] h = (p, tt)
  place-All_values ((j, w) ∷ m) h = elim (Bool-cases (text_lt k j)) [
    | inl e ↦ rw e (p, h)
    | inr e ↦ rw e (h.0, place-All_values m h.1)
  ]

  pub insert-AllValues : (m : Dict V) → AllValues P m → AllValues P (insert k v m)
  unfolding insert
  insert-AllValues m h = elim (Option-cases (find k m)) [
    | inl e ↦ let new : insert k v m ≡ place k v m = ground arith in rw new (place-All_values m h)
    | inr (w, e) ↦ let old : insert k v m ≡ m = ground arith in rw old h
  ]
