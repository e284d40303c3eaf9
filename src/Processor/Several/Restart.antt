-- ===== src/Processor/Several/Restart.antt =====
-- What the next start of the program finds of the files that calls of `CsvProcessor::handle`
-- (src/impl/CsvProcessor.cpp) left: the constructor of src/impl/DirectoryPoller.cpp on their directory.
use csv_to_kafka_using_cpp.Prelude.{
  ℕ, ◌<◌, true, false, none, some, List, ◌≡◌, sym, ◌∙◌, arith, keep_if, Memᴰ, mem_keep_if,
  mem_of_keep_if,
}
use csv_to_kafka_using_cpp.Prelude.Text.{Text}
use csv_to_kafka_using_cpp.Poller.{should_add_file, directory_poller}
use csv_to_kafka_using_cpp.Poller.Names.{should_add_file_names}
use csv_to_kafka_using_cpp.Processor.Handle.{Directory, in_progress, finished}
use csv_to_kafka_using_cpp.Processor.Several.{
  Phase, before, moved, reading, over, skipped, Several, Reaches, at_start,
}
use csv_to_kafka_using_cpp.Processor.Several.Apart.{
  IsName, itself, its_in_progress, its_finished, IsMoved, IsOver, Holds,
}
use csv_to_kafka_using_cpp.Processor.Several.Polled.{several-Holds}

-- A list has the names of a file at which there is one, and the others not.
pub record Lists (files : Directory) (path : Text) (listed : List Text) : Type 0 where
  pub present : (x c : Text) → IsName path x → files x ≡ some c → Memᴰ x listed
  pub absent : (x : Text) → IsName path x → files x ≡ none → Memᴰ x listed → ⊥

-- The file is to be processed under a name, and there with its content.
pub record IsAdded (files : Directory) (content name : Text) (added : List Text) : Type 0 where
  pub kept : files name ≡ some content
  pub waits : Memᴰ name added

-- What a start adds of a file, by how far its call had come.
abbrev pub Added : Directory → Text → Text → List Text → Phase → Type 0
Added files path content added before = IsAdded files content path added
Added files path content added moved =
    IsAdded files content (in_progress path) added × (Memᴰ path added → ⊥)
Added files path content added (reading opened) =
    IsAdded files content (in_progress path) added × (Memᴰ path added → ⊥)
Added files path content added over = (x : Text) → IsName path x → Memᴰ x added → ⊥
Added files path content added skipped = ⊥

starting_adds : (f : Text) → should_add_file f false ≡ true → should_add_file f true ≡ true
unfolding should_add_file
starting_adds f a = ground arith

module _ (files : Directory) (path content : Text) (listed : List Text)
    (l : Lists files path listed) where
  added : List Text
  added = keep_if (λ f. should_add_file f true) listed

  adds_name :
      (x : Text)
      → IsName path x
      → files x ≡ some content
      → should_add_file x true ≡ true
      → IsAdded files content x added
  unfolding added
  adds_name x m there a = record {
    kept = there;
    waits = mem_keep_if _ listed x (l.present x content m there) a;
  }

  not_added : (x : Text) → IsName path x → files x ≡ none → Memᴰ x added → ⊥
  unfolding added
  not_added x m gone i = l.absent x m gone (mem_of_keep_if _ listed x i).0

  finished_stays : Memᴰ (finished path) added → ⊥
  unfolding added
  finished_stays i =
      let yes' = (mem_of_keep_if _ listed (finished path) i).1 in
      let no' = (should_add_file_names path).2 true in
      let clash : true ≡ false = sym yes' ∙ no' in cc

  left_in_progress :
      IsMoved files path content
      → IsAdded files content (in_progress path) added × (Memᴰ path added → ⊥)
  left_in_progress m = (
    adds_name (in_progress path) its_in_progress m.there (should_add_file_names path).1,
    not_added path itself m.no_path,
  )

  over-added : IsOver files path content → (x : Text) → IsName path x → Memᴰ x added → ⊥
  over-added o x itself = not_added path itself o.no_path
  over-added o x its_in_progress = not_added (in_progress path) its_in_progress o.no_in_progress
  over-added o x its_finished = finished_stays

  Holds-Added :
      (p : Phase)
      → should_add_file path false ≡ true
      → Holds files path content p
      → Added files path content added p
  Holds-Added before a h = adds_name path itself h (starting_adds path a)
  Holds-Added moved a h = left_in_progress h
  Holds-Added (reading opened) a h = left_in_progress h.file
  Holds-Added over a h = over-added h
  Holds-Added skipped a h = h

-- The program stops at any moment while calls of `handle` for different files run, each of which
-- `should_add_file` adds for an event and was there at first, and starts again on a listing of the
-- same directory. Then the new poller has every file that was not done: under its own name if its
-- call had not renamed it, and else under the name in progress and not under its own; it is there
-- with the content that it had at first. A file that was done is added under none of its names.
pub several-Added :
    (n : ℕ) (path : ℕ → Text) (first : Directory) (content : ℕ → Text) {s : Several} (dir : Text)
    (listed : List Text)
    → ((i : ℕ) → i < n → should_add_file (path i) false ≡ true)
    → ((i j : ℕ) → i < n → j < n → path i ≡ path j → i ≡ j)
    → ((i : ℕ) → i < n → first (path i) ≡ some (content i))
    → Reaches n path (at_start first) s
    → ((i : ℕ) → i < n → Lists s.files (path i) listed)
    → (i : ℕ) → i < n
    → Added s.files (path i) (content i) (directory_poller dir listed).m_file_paths (s.phase i)
unfolding directory_poller added
several-Added n path first content {s} dir listed adds differ there r lists i b =
    Holds-Added s.files (path i) (content i) listed (lists i b) (s.phase i) (adds i b)
      ((several-Holds n path first content adds differ there r).0 i b)
