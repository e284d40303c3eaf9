-- ===== src/Processor/Several/Apart.antt =====
-- Calls of `CsvProcessor::handle` (src/impl/CsvProcessor.cpp) for different files do not disturb each
-- other.
use csv_to_kafka_using_cpp.Prelude.{
  ℕ, ◌<◌, none, some, ◌≡◌, ◌≢◌, Option, inl, inr, refl, sym, ap, ◌∙◌, subst, arith, ◌==◌, ==_iff,
  Bool-cases,
}
use csv_to_kafka_using_cpp.Prelude.Text.{Text, codes}
use csv_to_kafka_using_cpp.Processor.Handle.{Directory, rename, in_progress, finished}
use csv_to_kafka_using_cpp.Processor.Handle.Files.{
  longer, in_progress-finished, rename_new, rename_old, rename_other,
}
use csv_to_kafka_using_cpp.Processor.Several.{
  Phase, before, moved, reading, over, skipped, Several, update, Step, begins, skips, opens,
  finishes, Reaches, start, step, at_start,
}

-- The three names of a file.
pub data IsName (path : Text) : Text → Type 0 where
  itself : IsName path path
  its_in_progress : IsName path (in_progress path)
  its_finished : IsName path (finished path)

-- No two calls have a name in common.
abbrev pub AreApart : ℕ → (ℕ → Text) → Type 0
AreApart n path =
    (i j : ℕ) (x : Text) → i < n → j < n → IsName (path i) x → IsName (path j) x → i ≡ j

-- What is no name of a file of a call.
abbrev pub IsOther : ℕ → (ℕ → Text) → Text → Type 0
IsOther n path x = (i : ℕ) → i < n → IsName (path i) x → ⊥

-- Where the file of a call is.
pub record IsOver (files : Directory) (path content : Text) : Type 0 where
  pub no_path : files path ≡ none
  pub no_in_progress : files (in_progress path) ≡ none
  pub kept : files (finished path) ≡ some content

pub record IsMoved (files : Directory) (path content : Text) : Type 0 where
  pub no_path : files path ≡ none
  pub there : files (in_progress path) ≡ some content

pub record IsReading (files : Directory) (path content : Text) (opened : Option Text) : Type 0 where
  pub same : opened ≡ some content
  pub file : IsMoved files path content

abbrev pub Holds : Directory → Text → Text → Phase → Type 0
Holds files path content before = files path ≡ some content
Holds files path content moved = IsMoved files path content
Holds files path content (reading opened) = IsReading files path content opened
Holds files path content over = IsOver files path content
Holds files path content skipped = ⊥

-- A change of the directory that leaves the names of a file alone.
abbrev Leaves : Directory → Directory → Text → Type 0
Leaves files files' path = (x : Text) → IsName path x → files' x ≡ files x

IsMoved-Leaves :
    (files files' : Directory) (path content : Text)
    → Leaves files files' path
    → IsMoved files path content
    → IsMoved files' path content
IsMoved-Leaves files files' path content l h = record {
  no_path = l path itself ∙ h.no_path;
  there = l (in_progress path) its_in_progress ∙ h.there;
}

Holds-Leaves :
    (files files' : Directory) (path content : Text) (p : Phase)
    → Leaves files files' path
    → Holds files path content p
    → Holds files' path content p
Holds-Leaves files files' path content before l h = l path itself ∙ h
Holds-Leaves files files' path content moved l h = IsMoved-Leaves files files' path content l h
Holds-Leaves files files' path content (reading opened) l h = record {
  same = h.same;
  file = IsMoved-Leaves files files' path content l h.file;
}
Holds-Leaves files files' path content over l h = record {
  no_path = l path itself ∙ h.no_path;
  no_in_progress = l (in_progress path) its_in_progress ∙ h.no_in_progress;
  kept = l (finished path) its_finished ∙ h.kept;
}
Holds-Leaves files files' path content skipped l h = h

update_self : (f : ℕ → Phase) (i : ℕ) (p : Phase) → update f i p i ≡ p
unfolding update
update_self f i p = ground arith

update_ne : (f : ℕ → Phase) (i j : ℕ) (p : Phase) → i ≢ j → update f i p j ≡ f j
unfolding update
update_ne f i j p d = ground arith

module _ (n : ℕ) (path : ℕ → Text) (apart : AreApart n path) (first : Directory)
    (content : ℕ → Text) where
  -- Each file is where its call has it, and the other names are as they were.
  record IsKept (s : Several) : Type 0 where
    pub each : (i : ℕ) → i < n → Holds s.files (path i) (content i) (s.phase i)
    pub others : (x : Text) → IsOther n path x → s.files x ≡ first x

  -- A `rename` from one name of a file to another.
  renamed :
      (i : ℕ) (old new c : Text) (files : Directory)
      → files old ≡ some c
      → IsName (path i) old
      → IsName (path i) new
      → (x : Text) → (IsName (path i) x → ⊥)
      → (rename old new files).0 x ≡ files x
  renamed i old new c files h o m x u =
      rename_other old new c files h x (λ e. u (subst (IsName (path i)) e o))
        (λ e. u (subst (IsName (path i)) e m))

  -- A step of one call, which changes the directory only at the names of its file.
  stepped :
      (s : Several) (i : ℕ) (p : Phase) (files' : Directory)
      → i < n
      → IsKept s
      → ((x : Text) → (IsName (path i) x → ⊥) → files' x ≡ s.files x)
      → Holds files' (path i) (content i) p
      → IsKept (record { files = files'; phase = update s.phase i p })
  stepped s i p files' b k rest now = record {
    each = λ j l. elim (Bool-cases (i == j)) [
      | inl e ↦
          subst (λ (k : ℕ). Holds files' (path k) (content k) (update s.phase i p k))
            ((==_iff i j).0 e)
            (subst (Holds files' (path i) (content i)) (sym (update_self s.phase i p)) now)
      | inr e ↦
          let d : i ≢ j = λ q. let t = (==_iff i j).1 q in cc in
          subst (Holds files' (path j) (content j)) (sym (update_ne s.phase i j p d)) (
            Holds-Leaves s.files files' (path j) (content j) (s.phase j)
              (λ x y. rest x (λ z. d (apart i j x b l z y))) (k.each j l))
    ];
    others = λ x u. rest x (u i b) ∙ k.others x u;
  }

  moved_on :
      (s : Several) (i : ℕ) (old new c : Text) (p : Phase)
      → i < n
      → IsKept s
      → s.files old ≡ some c
      → IsName (path i) old
      → IsName (path i) new
      → Holds (rename old new s.files).0 (path i) (content i) p
      → IsKept (record { files = (rename old new s.files).0; phase = update s.phase i p })
  moved_on s i old new c p b k h o m now =
      stepped s i p (rename old new s.files).0 b k (renamed i old new c s.files h o m) now

  held :
      (s : Several) (i : ℕ) (p : Phase)
      → i < n
      → IsKept s
      → s.phase i ≡ p
      → Holds s.files (path i) (content i) p
  held s i p b k e = subst (Holds s.files (path i) (content i)) e (k.each i b)

  Step-IsKept : {s t : Several} → Step n path s t → IsKept s → IsKept t
  Step-IsKept {s} (begins i c b e h) k =
      let there : s.files (path i) ≡ some (content i) = held s i before b k e in
      let same : c ≡ content i = cc in
      moved_on s i (path i) (in_progress (path i)) c moved b k h itself its_in_progress (record {
        no_path =
            rename_old (path i) (in_progress (path i)) c s.files h
              (longer (path i) (codes "_inprogress") (omega arith));
        there = rename_new (path i) (in_progress (path i)) c s.files h ∙ ap some same;
      })
  Step-IsKept {s} (skips i b e h) k =
      let there : s.files (path i) ≡ some (content i) = held s i before b k e in cc
  Step-IsKept {s} (opens i b e) k =
      let m = held s i moved b k e in
      stepped s i _ s.files b k (λ x u. refl) (record { same = m.there; file = m })
  Step-IsKept {s} (finishes i c b e) k =
      let r = (held s i (reading c) b k e).file in
      moved_on s i (in_progress (path i)) (finished (path i)) (content i) over b k r.there
        its_in_progress its_finished
        (record {
          no_path =
              rename_other (in_progress (path i)) (finished (path i)) (content i) s.files r.there
                (path i) (longer (path i) (codes "_inprogress") (omega arith))
                (longer (path i) (codes "_done") (omega arith))
              ∙ r.no_path;
          no_in_progress =
              rename_old (in_progress (path i)) (finished (path i)) (content i) s.files r.there
                (in_progress-finished (path i));
          kept = rename_new (in_progress (path i)) (finished (path i)) (content i) s.files r.there;
        })

  Reaches-IsKept : {s t : Several} → Reaches n path s t → IsKept s → IsKept t
  Reaches-IsKept start k = k
  Reaches-IsKept (step r m) k = Step-IsKept m (Reaches-IsKept r k)

  -- However the renames of any number of calls of `handle` interleave, where the files are there at
  -- first and no two of them have a name in common: every call finds its file and reads the
  -- content that the file had at first; while it reads, the file is at the path in progress, and
  -- behind its second rename at the finished path, with this content and at no other of its
  -- names; and what is no name of these files is as it was.
  pub Reaches-Holds :
      {s : Several}
      → ((i : ℕ) → i < n → first (path i) ≡ some (content i))
      → Reaches n path (at_start first) s
      → ((i : ℕ) → i < n → Holds s.files (path i) (content i) (s.phase i))
        × ((x : Text) → IsOther n path x → s.files x ≡ first x)
  Reaches-Holds {s} there r =
      let k = Reaches-IsKept r (record { each = there; others = λ x u. refl }) in (k.each, k.others)
