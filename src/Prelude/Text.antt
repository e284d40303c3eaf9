-- ===== src/Prelude/Text.antt =====
-- `std::string` is a list of bytes. A `std::map` from strings whose only use is `operator[]` is a
-- function, which gives the empty string at a key that has not been assigned.
use Prim.Native.Char.{code}
use Prim.Native.String.{String}
use Prim.Native.Nat.{ℕ}
use mathlib.Core.Path.{◌≡◌, refl}
use mathlib.Core.Logic.{◌↔◌, ◌≢◌}
use mathlib.Core.Bool.{Bool, true, false, ◌&&◌}
use mathlib.Core.List.{List, [], ◌∷◌}
use native.Mathlib.Omega.{arith}
use csv_to_kafka_using_cpp.Prelude.Booleans.{◌==◌, if◌then◌else◌}

abbrev pub Text : Type 0
Text = List ℕ

-- A string literal of the source; all of them are ASCII.
abbrev pub codes : String → Text
codes String.[] = []
codes (String.◌∷◌ c s) = code c ∷ codes s

-- `operator==` and `!compare` of `std::string`.
unfoldable pub text_eq : Text → Text → Bool
text_eq [] [] = true
text_eq (x ∷ xs) (y ∷ ys) = x == y && text_eq xs ys
text_eq _ _ = false

pub text_eq_iff : (s t : Text) → (text_eq s t ≡ true) ↔ (s ≡ t)
unfolding text_eq
text_eq_iff (x ∷ xs) (y ∷ ys) = ground (arith, text_eq_iff xs ys)
text_eq_iff _ _ = ground arith

pub text_eq_refl : (s : Text) → text_eq s s ≡ true
text_eq_refl s = (text_eq_iff s s).1 refl

pub text_eq_ne : (s t : Text) → s ≢ t → text_eq s t ≡ false
text_eq_ne s t h = ground (arith, text_eq_iff s t)

-- The result of `m[k] = v` for such a map.
unfoldable pub assign {ℓ} : {V : Type ℓ} → (Text → V) → Text → V → Text → V
assign m k v j = if text_eq k j then v else m j

module _ {ℓ} {V : Type ℓ} (m : Text → V) (k : Text) (v : V) where
  pub assign_self : assign m k v k ≡ v
  unfolding assign
  assign_self = rw (text_eq_refl k)

  pub assign_ne : (j : Text) → k ≢ j → assign m k v j ≡ m j
  unfolding assign
  assign_ne j h = rw (text_eq_ne k j h)
