-- ===== src/Prelude/Result.antt =====
-- What a C++ call can do: return, throw, or have undefined behaviour.
use mathlib.Core.Path.{◌≡◌, refl}
use mathlib.Core.Logic.{◌⊎◌, inl, inr}
use csv_to_kafka_using_cpp.Prelude.Text.{Text}

-- What can be thrown: a `std::exception` with its `what()`, a string, or anything else.
pub data Exception : Type 0 where
  std_exception : Text → Exception
  std_string : Text → Exception
  c_string : Text → Exception
  unknown : Exception

pub data Result {ℓ} (A : Type ℓ) : Type ℓ where
  ok : A → Result A
  throws : Exception → Result A
  undefined : Result A

module _ {ℓ κ} {A : Type ℓ} {B : Type κ} where
  -- The rest of the code is reached by a return alone.
  infixl 5 ◌>>=◌
  abbrev pub ◌>>=◌ : Result A → (A → Result B) → Result B
  undefined >>= rest = undefined
  throws thrown >>= rest = throws thrown
  ok returned >>= rest = rest returned

  -- Code that returns did so in both of its parts.
  pub >>=-eq-ok :
      (first : Result A) (rest : A → Result B) {result : B}
      → (first >>= rest) ≡ ok result
      → (returned : A) × (first ≡ ok returned) × (rest returned ≡ ok result)
  >>=-eq-ok undefined rest both = cc
  >>=-eq-ok (throws thrown) rest both = cc
  >>=-eq-ok (ok returned) rest both = (returned, refl, both)

pub Result-cases {ℓ} :
    {A : Type ℓ} (r : Result A)
    → ((a : A) × (r ≡ ok a)) ⊎ (((e : Exception) × (r ≡ throws e)) ⊎ (r ≡ undefined))
Result-cases (ok a) = inl (a, refl)
Result-cases (throws e) = inr (inl (e, refl))
Result-cases undefined = inr (inr refl)
