-- ===== src/Poller/Pending.antt =====
-- What `DirectoryPoller::poll` (src/impl/DirectoryPoller.cpp) gives, and what it keeps for later.
use csv_to_kafka_using_cpp.Prelude.{
  true, false, not, ◌&&◌, ◌||◌, none, some, List, [], ◌∷◌, ◌++◌, ◌≡◌, refl, sym, ap, ◌∙◌, arith,
  if◌then◌else◌, is_empty, all, all-append, append-nil, append_assoc, Bool-cases, inl, inr,
}
use csv_to_kafka_using_cpp.Prelude.Text.{Text, codes}
use csv_to_kafka_using_cpp.Poller.{
  PollResult, DirectoryPoller, should_add_file, Event, handle_event, handle_events, last_of,
  all_but_last, pop_path, Inotify, is_unset, init_dir_watch, watching, poll,
}

-- The file that an event reports as closed, if it is to be added.
abbrev reported : Text → Event → List Text
reported dir e = elim e.name [
  | none ↦ []
  | some name ↦
      if not e.in_create
        && e.in_close
        && not e.in_isdir
        && should_add_file (dir ++ codes "/" ++ name) false
      then (dir ++ codes "/" ++ name) ∷ []
      else []
]

-- The files that a list of events reports, in its order.
pub added : Text → List Event → List Text
added dir [] = []
added dir (e ∷ es) = reported dir e ++ added dir es

abbrev appended : DirectoryPoller → List Text → DirectoryPoller
appended p fs = record p { m_file_paths = p.m_file_paths ++ fs }

handle_event-reported :
    (p : DirectoryPoller) (e : Event) → handle_event p e ≡ appended p (reported p.m_dir_to_watch e)
unfolding handle_event
handle_event-reported p e = ground (arith, append-nil p.m_file_paths)

handle_events-added :
    (p : DirectoryPoller) (es : List Event)
    → handle_events p es ≡ appended p (added p.m_dir_to_watch es)
unfolding handle_events added
handle_events-added p [] =
    ap (λ (fs : List Text). record p { m_file_paths = fs }) (sym (append-nil p.m_file_paths))
handle_events-added p (e ∷ es) = rw (handle_event-reported p e) (
    handle_events-added (appended p (reported p.m_dir_to_watch e)) es
    ∙ ap (λ (fs : List Text). record p { m_file_paths = fs })
        (append_assoc p.m_file_paths (reported p.m_dir_to_watch e) (added p.m_dir_to_watch es)))

pub last_of-concat : (f : Text) (fs : List Text) → all_but_last f fs ++ last_of f fs ∷ [] ≡ f ∷ fs
unfolding last_of all_but_last
last_of-concat f [] = refl
last_of-concat f (g ∷ gs) = ap (◌∷◌ f) (last_of-concat g gs)

-- What is there to take: the paths that wait, or else those that the events report.
abbrev pub available : DirectoryPoller → Inotify → List Text
available p system =
    if is_empty p.m_file_paths then added p.m_dir_to_watch system.events else p.m_file_paths

-- The path that a result takes from such a list.
abbrev pub taken : List Text → PollResult → List Text
taken [] r = []
taken (f ∷ fs) r = r.m_result ∷ []

pop_path-taken :
    (p : DirectoryPoller) (fs : List Text)
    → p.m_file_paths ≡ fs
    → ((pop_path p fs).0.m_file_paths ++ taken fs (pop_path p fs).1 ≡ fs)
      × (is_empty fs ≡ true → (pop_path p fs).1.m_result ≡ [])
unfolding pop_path
pop_path-taken p [] h = (append-nil p.m_file_paths ∙ h, λ e. refl)
pop_path-taken p (f ∷ fs) h = (last_of-concat f fs, λ e. cc)

watching_paths :
    (p : DirectoryPoller) (system : Inotify)
    → ((watching p system).m_file_paths ≡ p.m_file_paths)
      × ((watching p system).m_dir_to_watch ≡ p.m_dir_to_watch)
unfolding watching init_dir_watch
watching_paths p system = elim (Bool-cases (is_unset p.m_fd || is_unset p.m_wd)) [
  | inl e ↦ rw e (refl, refl)
  | inr e ↦ rw e (refl, refl)
]

-- With no path waiting, the events fill the vector.
filled_paths :
    (p : DirectoryPoller) (system : Inotify)
    → is_empty p.m_file_paths ≡ true
    → (handle_events (watching p system) system.events).m_file_paths
      ≡ added p.m_dir_to_watch system.events
filled_paths p system e =
    let (paths, dir) = watching_paths p system in
    let none_waits : p.m_file_paths ≡ [] = ground arith in
    rw (handle_events-added (watching p system) system.events, paths, dir, none_waits) refl

-- Every file that is closed and reported is given out once and kept until then: what a poll
-- leaves, with what it gives, is what was there. A poll gives the last path, it reads no event
-- while paths wait, and its result is empty if there is none.
pub poll-taken :
    (p : DirectoryPoller) (system : Inotify)
    → let r = poll p system in
      (r.0.m_file_paths ++ taken (available p system) r.1 ≡ available p system)
      × (is_empty (available p system) ≡ true → r.1.m_result ≡ [])
unfolding poll
poll-taken p system = elim (Bool-cases (is_empty p.m_file_paths)) [
  | inl e ↦
      let filled = handle_events (watching p system) system.events in
      rw (e, sym (filled_paths p system e)) (pop_path-taken filled filled.m_file_paths refl)
  | inr e ↦ rw e (pop_path-taken p p.m_file_paths refl)
]

-- The files that events report are none that is in progress or done.
added_names :
    (dir : Text) (events : List Event)
    → all (λ f. should_add_file f false) (added dir events) ≡ true
unfolding added
added_names dir [] = refl
added_names dir (e ∷ es) =
    all-append (λ f. should_add_file f false) (reported dir e) (added dir es) (ground arith)
      (added_names dir es)
