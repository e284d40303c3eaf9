-- ===== src/Tests/Several.antt =====
-- Two processors with a file each, the first at its end and the second in front of its file.
use csv_to_kafka_using_cpp.Prelude.{
  List, length, Memᴰ, ◌≢◌, ◌+◌, ℕ, ◌<◌, ◌==◌, Bool, true, false, none, some, [], ◌∷◌, ◌≡◌, refl, ap,
  arith, if◌then◌else◌,
}
use mathlib.Core.List.Memᴰ
use csv_to_kafka_using_cpp.Prelude.Text.{Text, codes, text_eq}
use csv_to_kafka_using_cpp.Poller.{should_add_file, directory_poller}
use csv_to_kafka_using_cpp.Processor.Handle.{Directory, rename}
use csv_to_kafka_using_cpp.Processor.Several.{
  Several, update, begins, opens, finishes, Reaches, start, step, at_start,
}
use csv_to_kafka_using_cpp.Processor.Several.Apart.{
  IsName, itself, its_in_progress, its_finished, IsOther, Holds,
}
use csv_to_kafka_using_cpp.Processor.Several.Polled.{several-Holds}
use csv_to_kafka_using_cpp.Processor.Several.Restart.{Lists, Added, several-Added}

abbrev named : Bool → Text
named true = codes "a.csv"
named false = codes "b.csv"

abbrev paths : ℕ → Text
paths i = named (i == 0)

abbrev contents : ℕ → Text
contents i = if i == 0 then codes "id\n7\n" else codes "id\n8\n"

abbrev files : Directory
files x =
    if text_eq x (codes "a.csv")
    then some (codes "id\n7\n")
    else if text_eq x (codes "b.csv")
    then some (codes "id\n8\n")
    else none

named_added : (b : Bool) → should_add_file (named b) false ≡ true
unfolding should_add_file
named_added true = refl
named_added false = refl

first_code : Text → ℕ
first_code [] = 0
first_code (c ∷ cs) = c

named_differ : (b c : Bool) → named b ≡ named c → b ≡ c
unfolding first_code
named_differ true true e = refl
named_differ true false e = let no : ◌≡◌ {A = ℕ} b'a' b'b' = ap first_code e in ground arith
named_differ false true e = let no : ◌≡◌ {A = ℕ} b'b' b'a' = ap first_code e in ground arith
named_differ false false e = refl

paths_differ : (i j : ℕ) → i < 2 → j < 2 → paths i ≡ paths j → i ≡ j
paths_differ i j l k e = let same = named_differ (i == 0) (j == 0) e in ground arith

there_named : (b : Bool) → files (named b) ≡ some (if b then codes "id\n7\n" else codes "id\n8\n")
unfolding text_eq
there_named true = refl
there_named false = refl

-- Both files are moved, then the first is opened and done.
one_done : (s : Several) × Reaches 2 paths (at_start files) s
unfolding text_eq rename update
one_done =
    let one = step start (begins 0 (codes "id\n7\n") (omega arith) refl refl) in
    let two = step one (begins 1 (codes "id\n8\n") (omega arith) refl refl) in
    let opened = step two (opens 0 (omega arith) refl) in
    (_, step opened (finishes 0 (some (codes "id\n7\n")) (omega arith) refl))

several-Holds_example :
    ((i : ℕ) → i < 2 → Holds one_done.0.files (paths i) (contents i) (one_done.0.phase i))
    × ((x : Text) → IsOther 2 paths x → one_done.0.files x ≡ files x)
several-Holds_example =
    several-Holds 2 paths files contents (λ i l. named_added (i == 0)) paths_differ
      (λ i l. there_named (i == 0)) one_done.1

-- What the directory has then, in ascending order.
abbrev listed : List Text
listed = codes "a.csv_done" ∷ codes "b.csv_inprogress" ∷ []

sum_of : Text → ℕ
unfolding first_code
sum_of x = first_code x + length x

not_listed : (x : Text) → sum_of x ≢ 107 → sum_of x ≢ 114 → Memᴰ x listed → ⊥
unfolding sum_of first_code
not_listed x d e (Memᴰ.head p) = d (ap sum_of p)
not_listed x d e (Memᴰ.tail (Memᴰ.head p)) = e (ap sum_of p)
not_listed x d e (Memᴰ.tail (Memᴰ.tail m)) = elim (Memᴰ.not-nil m) [ ]

present_named :
    (b : Bool) (x c : Text) → IsName (named b) x → one_done.0.files x ≡ some c → Memᴰ x listed
unfolding one_done text_eq rename update
present_named true x c itself e = cc
present_named true x c its_in_progress e = cc
present_named true x c its_finished e = Memᴰ.head refl
present_named false x c itself e = cc
present_named false x c its_in_progress e = Memᴰ.tail (Memᴰ.head refl)
present_named false x c its_finished e = cc

absent_named :
    (b : Bool) (x : Text) → IsName (named b) x → one_done.0.files x ≡ none → Memᴰ x listed → ⊥
unfolding one_done text_eq rename update sum_of first_code
absent_named true x itself e = not_listed (codes "a.csv") (omega arith) (omega arith)
absent_named true x its_in_progress e =
    not_listed (codes "a.csv_inprogress") (omega arith) (omega arith)
absent_named true x its_finished e = cc
absent_named false x itself e = not_listed (codes "b.csv") (omega arith) (omega arith)
absent_named false x its_in_progress e = cc
absent_named false x its_finished e = not_listed (codes "b.csv_done") (omega arith) (omega arith)

listed_named : (b : Bool) → Lists one_done.0.files (named b) listed
listed_named b = record { present = present_named b; absent = absent_named b }

several-Added_example :
    Added one_done.0.files
      (paths 1)
      (contents 1)
      (directory_poller (codes "in") listed).m_file_paths
      (one_done.0.phase 1)
several-Added_example =
    several-Added 2 paths files contents (codes "in") listed (λ i l. named_added (i == 0))
      paths_differ (λ i l. there_named (i == 0)) one_done.1 (λ i l. listed_named (i == 0)) 1
      (omega arith)
