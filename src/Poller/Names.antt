-- ===== src/Poller/Names.antt =====
-- The names that `DirectoryPoller::should_add_file` (src/impl/DirectoryPoller.cpp) takes, and those
-- that `CsvProcessor::handle` (src/impl/CsvProcessor.cpp) gives to files.
use csv_to_kafka_using_cpp.Prelude.{
  ℕ, Bool, true, false, some, [], ◌∷◌, ◌++◌, ◌≡◌, refl, sym, ap, ◌∙◌, arith, Bool-cases, inl, inr,
}
use csv_to_kafka_using_cpp.Prelude.Text.{Text, codes}
use csv_to_kafka_using_cpp.Util.{str_ends_with}
use csv_to_kafka_using_cpp.Util.Suffix.{ends_with_append, str_ends_with_iff}
use csv_to_kafka_using_cpp.Processor.Handle.{in_progress, finished}
use csv_to_kafka_using_cpp.Poller.{should_add_file}

-- The last character, 0 for the empty text.
last_code : Text → ℕ
last_code [] = 0
last_code (c ∷ []) = c
last_code (c ∷ d ∷ t) = last_code (d ∷ t)

last_code-append : (s t : Text) (c : ℕ) → last_code (s ++ c ∷ t) ≡ last_code (c ∷ t)
unfolding last_code
last_code-append [] t c = refl
last_code-append (a ∷ []) t c = refl
last_code-append (a ∷ b ∷ s) t c = last_code-append (b ∷ s) t c

in_progress-done :
    (path : Text) → str_ends_with (some (in_progress path)) (some (codes "_done")) ≡ false
unfolding last_code
in_progress-done path =
    elim (Bool-cases (str_ends_with (some (in_progress path)) (some (codes "_done")))) [
      | inr e ↦ e
      | inl e ↦
          let (before, same) = (str_ends_with_iff (in_progress path) (codes "_done")).0 e in
          let l : last_code (in_progress path) ≡ b's' =
            last_code-append path (codes "inprogress") b'_' in
          let r : last_code (before ++ codes "_done") ≡ b'e' =
            last_code-append before (codes "done") b'_' in
          let clash : ◌≡◌ {A = ℕ} b's' b'e' = sym l ∙ ap last_code same ∙ r in ground arith
    ]

pub should_add_file_names :
    (path : Text)
    → (should_add_file (in_progress path) false ≡ false)
      × (should_add_file (in_progress path) true ≡ true)
      × ((starting_up : Bool) → should_add_file (finished path) starting_up ≡ false)
unfolding should_add_file
should_add_file_names path = (
  rw (ends_with_append path (codes "_inprogress")) refl,
  rw (in_progress-done path) refl,
  λ starting_up. rw (ends_with_append path (codes "_done")) (ground arith),
)
