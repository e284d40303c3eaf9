-- ===== src/Processor/Several/Polled.antt =====
-- Files that the poller gives (src/impl/DirectoryPoller.cpp) can be processed at the same time.
use csv_to_kafka_using_cpp.Prelude.{
  ℕ, ◌<◌, true, false, some, [], ◌∷◌, ◌++◌, ◌≡◌, ◌≢◌, refl, sym, ap, ◌∙◌, arith, length,
  length-append, ◌⊎◌, inl, inr,
}
use csv_to_kafka_using_cpp.Prelude.Text.{Text, codes}
use csv_to_kafka_using_cpp.Processor.Handle.{Directory, in_progress, finished}
use csv_to_kafka_using_cpp.Processor.Several.{Several, Reaches, at_start}
use csv_to_kafka_using_cpp.Processor.Several.Apart.{
  IsName, itself, its_in_progress, its_finished, IsOther, Holds, Reaches-Holds,
}
use csv_to_kafka_using_cpp.Poller.{should_add_file}
use csv_to_kafka_using_cpp.Poller.Names.{should_add_file_names}

same_length : (p q s : Text) → p ++ s ≡ q ++ s → length p ≡ length q
same_length p q s e =
    omega (arith, ap (λ (t : Text). length t) e, length-append p s, length-append q s)

append_cancel : (p q s : Text) → length p ≡ length q → p ++ s ≡ q ++ s → p ≡ q
append_cancel [] [] s l e = refl
append_cancel [] (y ∷ q) s l e = let no : ⊥ = omega (arith, l) in elim no [ ]
append_cancel (x ∷ p) [] s l e = let no : ⊥ = omega (arith, l) in elim no [ ]
append_cancel (x ∷ p) (y ∷ q) s l e =
    let rest : p ++ s ≡ q ++ s = cc in let more = append_cancel p q s (omega (arith, l)) rest in cc

last_char : Text → ℕ
last_char [] = 0
last_char (c ∷ []) = c
last_char (c ∷ d ∷ cs) = last_char (d ∷ cs)

last_char-append : (p : Text) (c : ℕ) (cs : Text) → last_char (p ++ c ∷ cs) ≡ last_char (c ∷ cs)
unfolding last_char
last_char-append [] c cs = refl
last_char-append (x ∷ []) c cs = refl
last_char-append (x ∷ y ∷ p) c cs = last_char-append (y ∷ p) c cs

in_progress_not_finished : (p q : Text) → in_progress p ≢ finished q
unfolding last_char
in_progress_not_finished p q e =
    let ends : b's' ≡ b'e' =
      sym (last_char-append p _ _) ∙ ap last_char e ∙ last_char-append q _ _ in
    omega (arith, ends)

in_progress_injective : (p q : Text) → in_progress p ≡ in_progress q → p ≡ q
in_progress_injective p q e =
    append_cancel p q (codes "_inprogress") (same_length p q (codes "_inprogress") e) e

finished_injective : (p q : Text) → finished p ≡ finished q → p ≡ q
finished_injective p q e = append_cancel p q (codes "_done") (same_length p q (codes "_done") e) e

-- The names that `handle` gives are not added by an event.
in_progress_not_added : (p q : Text) → should_add_file p false ≡ true → p ≢ in_progress q
in_progress_not_added p q a e =
    let out = (should_add_file_names q).0 in
    let same = ap (λ (t : Text). should_add_file t false) e in
    let clash : true ≡ false = sym a ∙ same ∙ out in cc

finished_not_added : (p q : Text) → should_add_file p false ≡ true → p ≢ finished q
finished_not_added p q a e =
    let out = (should_add_file_names q).2 false in
    let same = ap (λ (t : Text). should_add_file t false) e in
    let clash : true ≡ false = sym a ∙ same ∙ out in cc

name_cases : {p x : Text} → IsName p x → (x ≡ p) ⊎ ((x ≡ in_progress p) ⊎ (x ≡ finished p))
name_cases itself = inl refl
name_cases its_in_progress = inr (inl refl)
name_cases its_finished = inr (inr refl)

-- A file that the poller adds has no name in common with another.
name_apart :
    (p q x : Text)
    → should_add_file p false ≡ true
    → should_add_file q false ≡ true
    → IsName p x
    → IsName q x
    → p ≡ q
name_apart p q x a b m n = elim (name_cases m) [
  | inl e ↦ elim (name_cases n) [
    | inl f ↦ sym e ∙ f
    | inr (inl f) ↦ elim (in_progress_not_added p q a (sym e ∙ f)) [ ]
    | inr (inr f) ↦ elim (finished_not_added p q a (sym e ∙ f)) [ ]
  ]
  | inr (inl e) ↦ elim (name_cases n) [
    | inl f ↦ elim (in_progress_not_added q p b (sym f ∙ e)) [ ]
    | inr (inl f) ↦ in_progress_injective p q (sym e ∙ f)
    | inr (inr f) ↦ elim (in_progress_not_finished p q (sym e ∙ f)) [ ]
  ]
  | inr (inr e) ↦ elim (name_cases n) [
    | inl f ↦ elim (finished_not_added q p b (sym f ∙ e)) [ ]
    | inr (inl f) ↦ elim (in_progress_not_finished q p (sym f ∙ e)) [ ]
    | inr (inr f) ↦ finished_injective p q (sym e ∙ f)
  ]
]

-- However the renames of any number of calls of `handle` interleave, where the paths are different,
-- each is one that `should_add_file` adds for an event, and the files are there at first: every
-- call finds its file and reads the content that the file had at first; while it reads, the file
-- is at the path in progress, and behind its second rename at the finished path, with this
-- content and at no other of its names; and what is no name of these files is as it was.
pub several-Holds :
    (n : ℕ) (path : ℕ → Text) (first : Directory) (content : ℕ → Text) {s : Several}
    → ((i : ℕ) → i < n → should_add_file (path i) false ≡ true)
    → ((i j : ℕ) → i < n → j < n → path i ≡ path j → i ≡ j)
    → ((i : ℕ) → i < n → first (path i) ≡ some (content i))
    → Reaches n path (at_start first) s
    → ((i : ℕ) → i < n → Holds s.files (path i) (content i) (s.phase i))
      × ((x : Text) → IsOther n path x → s.files x ≡ first x)
several-Holds n path first content added differ there r =
    Reaches-Holds n path
      (λ i j x l k m o. differ i j l k (name_apart (path i) (path j) x (added i l) (added j k) m o))
      first content there r
