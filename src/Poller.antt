-- ===== src/Poller.antt =====
-- src/impl/DirectoryPoller.cpp, src/impl/DirectoryPollerBuilder.cpp and src/impl/PollResult.cpp: the
-- watch of a directory, on Linux.
pub mod Names
pub mod Pending
pub mod MacOs
use csv_to_kafka_using_cpp.Prelude.{
  ℕ, zero, Bool, true, false, not, ◌&&◌, ◌||◌, Option, none, some, List, [], ◌∷◌, ◌++◌,
  if◌then◌else◌, is_empty, keep_if,
}
use csv_to_kafka_using_cpp.Prelude.Text.{Text, codes}
use csv_to_kafka_using_cpp.Prelude.Result.{Result, ok, throws, std_exception}
use csv_to_kafka_using_cpp.Prelude.Int.{ℤ, pos, negsuc, lt_ℤ}
use csv_to_kafka_using_cpp.Util.{str_ends_with}

-- `PollResult`, whose `empty` is that of the string.
pub record PollResult : Type 0 where
  pub m_result : Text

abbrev pub empty : PollResult → Bool
empty r = is_empty r.m_result

-- `m_file_paths` is the vector, with `back` at its end. The other members are never read.
pub record DirectoryPoller : Type 0 where
  pub m_dir_to_watch : Text
  pub m_file_paths : List Text
  pub m_fd : ℤ
  pub m_wd : ℤ

unfoldable pub should_add_file : Text → Bool → Bool
unfolding str_ends_with
should_add_file f starting_up =
    (starting_up || not (str_ends_with (some f) (some (codes "_inprogress"))))
    && not (str_ends_with (some f) (some (codes "_done")))

-- The constructor, with the set that `list_files` gives in ascending order.
unfoldable pub directory_poller : Text → List Text → DirectoryPoller
unfolding should_add_file
directory_poller dir_to_watch files = record {
  m_dir_to_watch = dir_to_watch;
  m_file_paths = keep_if (λ f. should_add_file f true) files;
  m_fd = negsuc 0;
  m_wd = negsuc 0;
}

-- `struct inotify_event`: `len` is not 0 exactly if there is a name. Of the mask only these bits
-- are read. A moved file has none of them.
pub record Event : Type 0 where
  pub name : Option Text
  pub in_create : Bool
  pub in_close : Bool
  pub in_isdir : Bool

-- The body of the loop over the buffer.
unfoldable pub handle_event : DirectoryPoller → Event → DirectoryPoller
unfolding should_add_file
handle_event p event = elim event.name [
  | none ↦ p
  | some name ↦
      (let file_name = p.m_dir_to_watch ++ codes "/" ++ name in
        if event.in_create
        then p
        else if event.in_close
        then (if event.in_isdir
            then p
            else if should_add_file file_name false
            then record p { m_file_paths = p.m_file_paths ++ file_name ∷ [] }
            else p)
        else p)
]

unfoldable pub handle_events : DirectoryPoller → List Event → DirectoryPoller
unfolding handle_event
handle_events p [] = p
handle_events p (event ∷ events) = handle_events (handle_event p event) events

-- `back` and `pop_back`, with the empty result for an empty vector.
unfoldable pub last_of : Text → List Text → Text
last_of f [] = f
last_of f (g ∷ gs) = last_of g gs

unfoldable pub all_but_last : Text → List Text → List Text
all_but_last f [] = []
all_but_last f (g ∷ gs) = f ∷ all_but_last g gs

unfoldable pub pop_path : DirectoryPoller → List Text → DirectoryPoller × PollResult
unfolding last_of all_but_last
pop_path p [] = (p, record { m_result = [] })
pop_path p (f ∷ fs) =
    (record p { m_file_paths = all_but_last f fs }, record { m_result = last_of f fs })

-- What the system answers: the descriptors of `inotify_init` and `inotify_add_watch`, and the
-- events read, none where `select` or `read` fails or nothing is ready.
pub record Inotify : Type 0 where
  pub fd : ℤ
  pub wd : ℤ
  pub events : List Event

abbrev pub is_unset : ℤ → Bool
is_unset (negsuc zero) = true
is_unset _ = false

-- `init_dir_watch`, which has no `return`.
unfoldable pub init_dir_watch : DirectoryPoller → Inotify → DirectoryPoller
init_dir_watch p system = record p { m_fd = system.fd; m_wd = system.wd }

unfoldable pub watching : DirectoryPoller → Inotify → DirectoryPoller
unfolding init_dir_watch
watching p system = if is_unset p.m_fd || is_unset p.m_wd then init_dir_watch p system else p

unfoldable pub poll : DirectoryPoller → Inotify → DirectoryPoller × PollResult
unfolding pop_path handle_events watching
poll p system =
    let filled = handle_events (watching p system) system.events in
    if is_empty p.m_file_paths
    then pop_path filled filled.m_file_paths
    else pop_path p p.m_file_paths

-- `DirectoryPollerBuilder`. `files_of` lists a directory.
pub record DirectoryPollerBuilder : Type 0 where
  pub m_dir_to_watch : Text
  pub m_sig_channel : Option ℕ

abbrev pub new_builder : DirectoryPollerBuilder
new_builder = record { m_dir_to_watch = []; m_sig_channel = none }

abbrev pub with_directory : Text → DirectoryPollerBuilder → DirectoryPollerBuilder
with_directory p b = record b { m_dir_to_watch = p }

abbrev pub with_channel : Option ℕ → DirectoryPollerBuilder → DirectoryPollerBuilder
with_channel sc b = record b { m_sig_channel = sc }

unfoldable pub build_poller : (Text → List Text) → DirectoryPollerBuilder → Result DirectoryPoller
unfolding directory_poller
build_poller files_of b =
    if is_empty b.m_dir_to_watch
    then throws (std_exception (codes "No directory must be provided"))
    else elim b.m_sig_channel [
      | none ↦ throws (std_exception (codes "No signal channel provided"))
      | some sc ↦ ok (directory_poller b.m_dir_to_watch (files_of b.m_dir_to_watch))
    ]
