-- ===== src/Prelude/Lists.antt =====
-- Lists measured and indexed by native numbers, under the library's names.
use Prim.Native.Nat.{ℕ, zero, suc, ◌+◌}
use mathlib.Core.Path.{◌≡◌, refl, sym, ap, ◌∙◌, subst}
use mathlib.Core.Logic.{◌⊎◌, inl, inr}
use mathlib.Core.Bool.{Bool, true, false, ◌&&◌}
use mathlib.Core.List.{List, [], ◌∷◌, ◌++◌, Memᴰ}
use mathlib.Core.List.Memᴰ
use mathlib.Core.Option.{Option, none, some}
use native.Mathlib.Omega.{arith}
use csv_to_kafka_using_cpp.Prelude.Booleans.{if◌then◌else◌, Bool-cases}

module _ {ℓ} {A : Type ℓ} where
  abbrev pub length : List A → ℕ
  length [] = 0
  length (x ∷ xs) = suc (length xs)

  abbrev pub is_empty : List A → Bool
  is_empty [] = true
  is_empty (x ∷ xs) = false

  abbrev pub get_elem? : List A → ℕ → Option A
  get_elem? [] i = none
  get_elem? (x ∷ xs) zero = some x
  get_elem? (x ∷ xs) (suc i) = get_elem? xs i

  abbrev pub get_or : List A → ℕ → A → A
  get_or [] i d = d
  get_or (x ∷ xs) zero d = x
  get_or (x ∷ xs) (suc i) d = get_or xs i d

  -- A write out of bounds changes nothing.
  abbrev pub set : List A → ℕ → A → List A
  set [] i v = []
  set (x ∷ xs) zero v = v ∷ xs
  set (x ∷ xs) (suc i) v = x ∷ set xs i v

  -- `std::remove` followed by `erase`: what is left satisfies the test.
  abbrev pub keep_if : (A → Bool) → List A → List A
  keep_if p [] = []
  keep_if p (x ∷ xs) = let rest = keep_if p xs in if p x then x ∷ rest else rest

  abbrev pub all : (A → Bool) → List A → Bool
  all p [] = true
  all p (x ∷ xs) = p x && all p xs

  pub length-append : (xs ys : List A) → length (xs ++ ys) ≡ length xs + length ys
  length-append [] ys = omega arith
  length-append (x ∷ xs) ys = omega (arith, length-append xs ys)

  -- The place behind `xs` in `xs ++ x ∷ ys`.
  pub get_elem?-append : (xs ys : List A) (x : A) → get_elem? (xs ++ x ∷ ys) (length xs) ≡ some x
  get_elem?-append [] ys x = refl
  get_elem?-append (y ∷ xs) ys x = get_elem?-append xs ys x

  pub set-append : (xs ys : List A) (x v : A) → set (xs ++ x ∷ ys) (length xs) v ≡ xs ++ v ∷ ys
  set-append [] ys x v = refl
  set-append (y ∷ xs) ys x v = ap (◌∷◌ y) (set-append xs ys x v)

  pub keep_if-append :
      (p : A → Bool) (xs ys : List A) → keep_if p (xs ++ ys) ≡ keep_if p xs ++ keep_if p ys
  keep_if-append p [] ys = refl
  keep_if-append p (x ∷ xs) ys = ground (arith, keep_if-append p xs ys)

  pub mem_keep_if :
      (p : A → Bool) (xs : List A) (x : A) → Memᴰ x xs → p x ≡ true → Memᴰ x (keep_if p xs)
  mem_keep_if p [] x m h = m
  mem_keep_if p (y ∷ ys) x m h = elim (Bool-cases (p y)) [
    | inl e ↦ rw e (elim (Memᴰ.cases_cons m) [
      | inl q ↦ Memᴰ.head q
      | inr i ↦ Memᴰ.tail (mem_keep_if p ys x i h)
    ])
    | inr e ↦ rw e (elim (Memᴰ.cases_cons m) [
      | inl q ↦ let clash : true ≡ false = sym h ∙ ap p q ∙ e in cc
      | inr i ↦ mem_keep_if p ys x i h
    ])
  ]

  pub mem_of_keep_if :
      (p : A → Bool) (xs : List A) (x : A) → Memᴰ x (keep_if p xs) → Memᴰ x xs × (p x ≡ true)
  mem_of_keep_if p [] x m = elim (Memᴰ.not-nil m) [ ]
  mem_of_keep_if p (y ∷ ys) x m = elim (Bool-cases (p y)) [
    | inl e ↦
        elim (Memᴰ.cases_cons
          (subst (λ (b : Bool). Memᴰ x (if b then y ∷ keep_if p ys else keep_if p ys)) e m)) [
            | inl q ↦ (Memᴰ.head q, ap p q ∙ e)
            | inr i ↦ let r = mem_of_keep_if p ys x i in (Memᴰ.tail r.0, r.1)
          ]
    | inr e ↦
        let i = subst (λ (b : Bool). Memᴰ x (if b then y ∷ keep_if p ys else keep_if p ys)) e m in
        let r = mem_of_keep_if p ys x i in (Memᴰ.tail r.0, r.1)
  ]

  pub keep_if-all : (p : A → Bool) (xs : List A) → all p xs ≡ true → keep_if p xs ≡ xs
  keep_if-all p [] h = refl
  keep_if-all p (x ∷ xs) h = ground (arith, keep_if-all p xs)

  pub all-keep_if : (p : A → Bool) (xs : List A) → all p (keep_if p xs) ≡ true
  all-keep_if p [] = refl
  all-keep_if p (x ∷ xs) = ground (arith, all-keep_if p xs)

  pub all-append :
      (p : A → Bool) (xs ys : List A) → all p xs ≡ true → all p ys ≡ true → all p (xs ++ ys) ≡ true
  all-append p [] ys h k = k
  all-append p (x ∷ xs) ys h k = ground (arith, all-append p xs ys)

pub List-cases {ℓ} :
    {A : Type ℓ} (xs : List A) → (xs ≡ []) ⊎ ((x : A) × (rest : List A) × (xs ≡ x ∷ rest))
List-cases [] = inl refl
List-cases (x ∷ rest) = inr (x, rest, refl)

pub append-eq-nil {ℓ} : {A : Type ℓ} (xs ys : List A) → xs ++ ys ≡ [] → (xs ≡ []) × (ys ≡ [])
append-eq-nil [] ys h = (refl, h)
append-eq-nil (x ∷ xs) ys h = cc
