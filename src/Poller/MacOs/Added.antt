-- ===== src/Poller/MacOs/Added.antt =====
-- What a poll on macOS (src/impl/DirectoryPollerMacOS.cpp) adds.
use csv_to_kafka_using_cpp.Prelude.{
  ℕ, ◌+◌, ◌≤◌, Bool, true, false, not, ◌&&◌, ◌||◌, List, [], ◌∷◌, ◌++◌, ◌≡◌, refl, sym, ap, ◌∙◌,
  arith, if◌then◌else◌, is_empty, keep_if, append-nil, append_assoc, Bool-cases, inl, inr,
}
use csv_to_kafka_using_cpp.Prelude.Text.{Text, text_eq, text_eq_iff, text_eq_refl}
use csv_to_kafka_using_cpp.Poller.{should_add_file, is_unset}
use csv_to_kafka_using_cpp.Poller.Pending.{taken, last_of-concat}
use csv_to_kafka_using_cpp.Poller.MacOs.{
  MacPoller, vnode, Kqueue, is_listed, set_difference, note_write, handle_kevent,
  mac_init_dir_watch, mac_watching, mac_pop, mac_poll,
}

-- A file that a listing has and the one before had not.
abbrev pub is_new : List Text → List Text → Text → Bool
is_new before current f = is_listed f current && not (is_listed f before) && should_add_file f false

is_listed-append :
    (f : Text) (fs gs : List Text) → is_listed f (fs ++ gs) ≡ (is_listed f fs || is_listed f gs)
unfolding is_listed
is_listed-append f [] gs = refl
is_listed-append f (g ∷ fs) gs = ground (arith, is_listed-append f fs gs)

listed_all : (before fs : List Text) → keep_if (λ f. not (is_listed f (before ++ fs))) fs ≡ []
listed_all before [] = refl
listed_all before (f ∷ fs) =
    let here : is_listed f (before ++ f ∷ fs) ≡ true =
      is_listed-append f before (f ∷ fs)
      ∙ (unfold is_listed in rw (text_eq_refl f) (ground arith)) in
    let rest = listed_all (before ++ f ∷ []) fs in
    rw here (
      ap (λ (l : List Text). keep_if (λ g. not (is_listed g l)) fs)
        (sym (append_assoc before (f ∷ []) fs))
      ∙ rest)

-- How often a file is in a list.
abbrev pub count : Text → List Text → ℕ
count f [] = 0
count f (g ∷ gs) = (if text_eq f g then 1 else 0) + count f gs

count-append : (f : Text) (fs gs : List Text) → count f (fs ++ gs) ≡ count f fs + count f gs
count-append f [] gs = omega arith
count-append f (g ∷ fs) gs = omega (arith, count-append f fs gs)

count-keep_if :
    (p : Text → Bool) (f : Text) (fs : List Text)
    → count f (keep_if p fs) ≡ (if p f then count f fs else 0)
count-keep_if p f [] = ground arith
count-keep_if p f (g ∷ gs) = elim (Bool-cases (text_eq f g)) [
  | inl e ↦
      let same : p g ≡ p f = ap p (sym ((text_eq_iff f g).0 e)) in
      ground (arith, count-keep_if p f gs)
  | inr e ↦ ground (arith, count-keep_if p f gs)
]

-- In a list that has no file twice.
count_once :
    (f : Text) (fs : List Text) → count f fs ≤ 1 → count f fs ≡ (if is_listed f fs then 1 else 0)
unfolding is_listed
count_once f [] h = refl
count_once f (g ∷ gs) h = ground (arith, count_once f gs)

new_once :
    (before current : List Text) (f : Text)
    → count f current ≤ 1
    → count f (keep_if (λ g. should_add_file g false) (set_difference current before))
      ≡ (if is_new before current f then 1 else 0)
unfolding set_difference
new_once before current f h =
    count-keep_if (λ g. should_add_file g false) f _
    ∙ ap (λ n. if should_add_file f false then n else 0)
        (count-keep_if (λ g. not (is_listed g before)) f current
          ∙ ap (λ n. if not (is_listed f before) then n else 0) (count_once f current h))
    ∙ ground arith

-- The listing of the directory has no file twice. A write to the directory adds exactly the files
-- that are listed now, were not listed at the write before, and are neither in progress nor done,
-- each of them once; with the same listing again it adds none.
pub note_write_new :
    (p : MacPoller) (current : List Text)
    → ((f : Text) → count f current ≤ 1)
    → ((f : Text)
        → count f (note_write p current).m_file_paths
          ≡ count f p.m_file_paths + (if is_new p.m_last_files current f then 1 else 0))
      × (note_write (note_write p current) current ≡ note_write p current)
unfolding note_write set_difference
note_write_new p current once = (
  λ f.
      count-append f p.m_file_paths _
      ∙ ap (λ n. count f p.m_file_paths + n) (new_once p.m_last_files current f (once f)),
  rw (listed_all [] current) (
      ap (λ (l : List Text). record p { m_file_paths = l; m_last_files = current }) (append-nil _)),
)

-- The files that an event adds to a listing.
abbrev mac_added : Kqueue → List Text → List Text
mac_added system last_files = elim system.event [
  | vnode written ↦
      if written
      then keep_if (λ f. should_add_file f false) (set_difference system.files last_files)
      else []
  | _ ↦ []
]

-- What is there to take: the paths that wait, or else the files that a write adds.
abbrev pub mac_available : MacPoller → Kqueue → List Text
mac_available p system =
    if is_empty p.m_file_paths then mac_added system p.m_last_files else p.m_file_paths

mac_pop-taken :
    (p : MacPoller) (fs : List Text)
    → p.m_file_paths ≡ fs
    → ((mac_pop p fs).0.m_file_paths ++ taken fs (mac_pop p fs).1 ≡ fs)
      × (is_empty fs ≡ true → (mac_pop p fs).1.m_result ≡ [])
unfolding mac_pop
mac_pop-taken p [] h = (append-nil p.m_file_paths ∙ h, λ e. refl)
mac_pop-taken p (f ∷ fs) h = (last_of-concat f fs, λ e. cc)

mac_watching_paths :
    (p : MacPoller) (system : Kqueue)
    → ((mac_watching p system).m_file_paths ≡ p.m_file_paths)
      × ((mac_watching p system).m_last_files ≡ p.m_last_files)
unfolding mac_watching mac_init_dir_watch
mac_watching_paths p system = elim (Bool-cases (is_unset p.m_fd || is_unset p.m_kq)) [
  | inl e ↦ rw e (refl, refl)
  | inr e ↦ rw e (refl, refl)
]

kevent_cases :
    (q : MacPoller) (system : Kqueue)
    → q.m_file_paths ≡ []
    → (handle_kevent q system).m_file_paths ≡ mac_added system q.m_last_files
unfolding handle_kevent note_write
kevent_cases q system h = ground arith

handle_kevent_paths :
    (p q : MacPoller) (system : Kqueue)
    → is_empty p.m_file_paths ≡ true
    → q.m_file_paths ≡ p.m_file_paths
    → q.m_last_files ≡ p.m_last_files
    → (handle_kevent q system).m_file_paths ≡ mac_available p system
unfolding handle_kevent note_write
handle_kevent_paths p q system e paths files =
    let nothing : p.m_file_paths ≡ [] = ground arith in
    rw e (kevent_cases q system (paths ∙ nothing) ∙ ap (mac_added system) files)

-- No file that a write adds is lost or given out twice: what a poll leaves, with what it gives,
-- is what was there.
pub mac_poll-taken :
    (p : MacPoller) (system : Kqueue)
    → let r = mac_poll p system in
      (r.0.m_file_paths ++ taken (mac_available p system) r.1 ≡ mac_available p system)
      × (is_empty (mac_available p system) ≡ true → r.1.m_result ≡ [])
unfolding mac_poll
mac_poll-taken p system = elim (Bool-cases (is_empty p.m_file_paths)) [
  | inl e ↦
      let (paths, files) = mac_watching_paths p system in
      let filled = handle_kevent (mac_watching p system) system in
      let all_there : filled.m_file_paths ≡ mac_available p system =
        handle_kevent_paths p (mac_watching p system) system e paths files in
      rw (sym all_there, e) (mac_pop-taken filled filled.m_file_paths refl)
  | inr e ↦ rw e (mac_pop-taken p p.m_file_paths refl)
]
