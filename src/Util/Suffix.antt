-- ===== src/Util/Suffix.antt =====
-- `Util::str_ends_with` (src/impl/Util.cpp) decides whether a string ends with another.
use csv_to_kafka_using_cpp.Prelude.{
  ℕ, zero, suc, ◌-◌, ◌≤◌, true, some, [], ◌∷◌, ◌++◌, ◌≡◌, ◌↔◌, refl, ap, ◌∙◌, arith, length,
  length-append,
}
use csv_to_kafka_using_cpp.Prelude.Text.{Text}
use csv_to_kafka_using_cpp.Util.{drop, strncmp_eq, str_ends_with}

strncmp_eq_sound :
    (n : ℕ) (s t : Text) → n ≡ length s → n ≡ length t → strncmp_eq n s t ≡ true → s ≡ t
unfolding strncmp_eq
strncmp_eq_sound zero [] [] hs ht e = refl
strncmp_eq_sound zero [] (y ∷ ys) hs ht e = absurd (omega arith)
strncmp_eq_sound zero (x ∷ xs) t hs ht e = absurd (omega arith)
strncmp_eq_sound (suc n) [] t hs ht e = absurd (omega arith)
strncmp_eq_sound (suc n) (x ∷ xs) [] hs ht e = absurd (omega arith)
strncmp_eq_sound (suc n) (x ∷ xs) (y ∷ ys) hs ht e = ground (arith, strncmp_eq_sound n xs ys)

strncmp_eq_self : (t : Text) → strncmp_eq (length t) t t ≡ true
unfolding strncmp_eq
strncmp_eq_self [] = refl
strncmp_eq_self (c ∷ cs) = ground (arith, strncmp_eq_self cs)

take : ℕ → Text → Text
take zero t = []
take (suc n) [] = []
take (suc n) (c ∷ cs) = c ∷ take n cs

take-append-drop : (n : ℕ) (t : Text) → t ≡ take n t ++ drop n t
unfolding take
take-append-drop zero t = refl
take-append-drop (suc n) [] = refl
take-append-drop (suc n) (c ∷ cs) = ap (◌∷◌ c) (take-append-drop n cs)

length-drop : (n : ℕ) (t : Text) → length (drop n t) ≡ length t - n
length-drop zero t = omega arith
length-drop (suc n) [] = omega arith
length-drop (suc n) (c ∷ cs) = omega (arith, length-drop n cs)

drop-append : (s t : Text) → drop (length s) (s ++ t) ≡ t
drop-append [] t = refl
drop-append (c ∷ cs) t = drop-append cs t

ends_with_prefix :
    (s suffix : Text)
    → str_ends_with (some s) (some suffix) ≡ true
    → (before : Text) × (s ≡ before ++ suffix)
unfolding str_ends_with
ends_with_prefix s suffix h =
    let n = length s - length suffix in
    let l : length suffix ≤ length s = ground arith in
    let k : length suffix ≡ length (drop n s) = omega (arith, length-drop n s) in
    let e : drop n s ≡ suffix =
      strncmp_eq_sound (length suffix) (drop n s) suffix k refl (ground arith) in
    (take n s, take-append-drop n s ∙ ap (◌++◌ (take n s)) e)

pub ends_with_append :
    (before suffix : Text) → str_ends_with (some (before ++ suffix)) (some suffix) ≡ true
unfolding str_ends_with
ends_with_append before suffix =
    let l : length (before ++ suffix) - length suffix ≡ length before =
      omega (arith, length-append before suffix) in
    rw (l, drop-append before suffix)
      (ground (arith, length-append before suffix, strncmp_eq_self suffix))

-- `str_ends_with` of two strings is true exactly if the first is something followed by the second.
pub str_ends_with_iff :
    (s suffix : Text)
    → (str_ends_with (some s) (some suffix) ≡ true) ↔ ((before : Text) × (s ≡ before ++ suffix))
str_ends_with_iff s suffix = (ends_with_prefix s suffix, λ p. rw p.1 (ends_with_append p.0 suffix))
