-- ===== src/Poller/MacOs.antt =====
-- src/impl/DirectoryPollerMacOS.cpp: the watch of a directory on macOS, which compares listings.
pub mod Added
use csv_to_kafka_using_cpp.Prelude.{
  ℕ, zero, Bool, true, false, not, ◌&&◌, ◌||◌, Option, none, some, List, [], ◌∷◌, ◌++◌,
  if◌then◌else◌, is_empty, keep_if,
}
use csv_to_kafka_using_cpp.Prelude.Text.{Text, text_eq}
use csv_to_kafka_using_cpp.Prelude.Int.{ℤ, negsuc, lt_ℤ, pos}
use csv_to_kafka_using_cpp.Poller.{PollResult, should_add_file, last_of, all_but_last, is_unset}

-- The members that are used. `m_last_files` is the listing of the directory in ascending order.
pub record MacPoller : Type 0 where
  pub m_file_paths : List Text
  pub m_last_files : List Text
  pub m_kq : ℤ
  pub m_fd : ℤ

-- The constructor.
unfoldable pub mac_poller : List Text → MacPoller
mac_poller files = record {
  m_file_paths = keep_if (λ f. should_add_file f true) files;
  m_last_files = files;
  m_kq = negsuc 0;
  m_fd = negsuc 0;
}

-- What `kevent` gives: nothing, for an error or at the timeout; an event of the directory, with
-- the one flag that has an effect; or an event of another kind.
pub data Kevent : Type 0 where
  no_event : Kevent
  vnode : Bool → Kevent
  unknown_filter : Kevent

-- What the system answers: the descriptors of `kqueue` and `open`, the event, and the listing of
-- the directory.
pub record Kqueue : Type 0 where
  pub kq : ℤ
  pub fd : ℤ
  pub event : Kevent
  pub files : List Text

unfoldable pub is_listed : Text → List Text → Bool
is_listed f [] = false
is_listed f (g ∷ gs) = text_eq f g || is_listed f gs

-- `std::set_difference`
unfoldable pub set_difference : List Text → List Text → List Text
unfolding is_listed
set_difference a b = keep_if (λ f. not (is_listed f b)) a

-- The case of `NOTE_WRITE`.
unfoldable pub note_write : MacPoller → List Text → MacPoller
unfolding set_difference
note_write p current = record p {
  m_file_paths =
      p.m_file_paths
      ++ keep_if (λ f. should_add_file f false) (set_difference current p.m_last_files);
  m_last_files = current;
}

unfoldable pub handle_kevent : MacPoller → Kqueue → MacPoller
unfolding note_write
handle_kevent p system = elim system.event [
  | no_event ↦ p
  | vnode written ↦ if written then note_write p system.files else p
  | unknown_filter ↦ p
]

-- `init_dir_watch`, whose result sends SIGINT and nothing else.
unfoldable pub mac_init_dir_watch : MacPoller → Kqueue → MacPoller
mac_init_dir_watch p system = record p { m_kq = system.kq; m_fd = system.fd }

unfoldable pub mac_watching : MacPoller → Kqueue → MacPoller
unfolding mac_init_dir_watch
mac_watching p system =
    if is_unset p.m_fd || is_unset p.m_kq then mac_init_dir_watch p system else p

unfoldable pub mac_pop : MacPoller → List Text → MacPoller × PollResult
mac_pop p [] = (p, record { m_result = [] })
mac_pop p (f ∷ fs) =
    (record p { m_file_paths = all_but_last f fs }, record { m_result = last_of f fs })

unfoldable pub mac_poll : MacPoller → Kqueue → MacPoller × PollResult
unfolding mac_pop handle_kevent mac_watching
mac_poll p system =
    let filled = handle_kevent (mac_watching p system) system in
    if is_empty p.m_file_paths then mac_pop filled filled.m_file_paths else mac_pop p p.m_file_paths
