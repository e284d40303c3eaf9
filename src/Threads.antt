-- ===== src/Threads.antt =====
-- src/ThreadGuard.h, src/PollerBridge.cpp, src/ProcessorBridge.cpp and src/Connector.cpp: who owns the
-- objects and the threads.
pub mod Clones
pub mod Joined
use csv_to_kafka_using_cpp.Prelude.{
  ℕ, ◌+◌, Bool, true, false, Option, none, some, List, [], ◌∷◌, ◌++◌, ◌==◌, if◌then◌else◌,
}

-- A computation that can crash the program: it uses or deletes an object that is not there, follows
-- a null pointer, or destroys a thread that can be joined, which calls `std::terminate`.
infixl 5 ◌>>=◌
abbrev ◌>>=◌ : {A B : Type 0} → Option A → (A → Option B) → Option B
none >>= rest = none
some a >>= rest = rest a

-- The objects on the heap, by their addresses, and the next address.
pub record Heap : Type 0 where
  pub next : ℕ
  pub live : List ℕ

unfoldable pub is_live : ℕ → List ℕ → Bool
is_live a [] = false
is_live a (b ∷ live) = let later = is_live a live in if a == b then true else later

unfoldable pub remove : ℕ → List ℕ → Option (List ℕ)
remove a [] = none
remove a (b ∷ live) = do
  let rest = remove a live
  if a == b then some live else (rest >>= λ xs. some (b ∷ xs))

abbrev pub new_object : Heap → ℕ × Heap
new_object h = (h.next, record { next = h.next + 1; live = h.live ++ h.next ∷ [] })

unfoldable pub delete_object : ℕ → Heap → Option Heap
unfolding remove
delete_object a h = do live ← remove a h.live; some (record h { live = live })

-- `std::unique_ptr<std::thread>`
pub data ThreadPtr : Type 0 where
  no_thread joinable joined : ThreadPtr

-- `~ThreadGuard`, of a guard for the thread behind the pointer.
abbrev pub thread_guard : ThreadPtr → Option ThreadPtr
thread_guard no_thread = none
thread_guard joinable = some joined
thread_guard joined = some joined

-- The destructor of the pointer.
abbrev pub release : ThreadPtr → Option (Unit {0})
release joinable = none
release _ = some tt

-- `PollerBridge` and `ProcessorBridge`: the clone that they own, and its thread.
pub record Bridge : Type 0 where
  pub m_ptr : ℕ
  pub m_t : ThreadPtr

-- What `main` sees of the threads.
pub data Event : Type 0 where
  started joined_with : ℕ → Event

-- The conversion constructor, of an object that is not on the heap.
abbrev pub wrap : Heap → Bridge × Heap
wrap h = let (a, h') = new_object h in (record { m_ptr = a; m_t = no_thread }, h')

-- The copy constructor: a clone of the object, and no thread.
unfoldable pub copy_bridge : Bridge → Heap → Option (Bridge × Heap)
unfolding is_live
copy_bridge original h = if is_live original.m_ptr h.live then some (wrap h) else none

unfoldable pub start : Bridge → Option (Bridge × Event)
start b = do _ ← release b.m_t; some (record b { m_t = joinable }, started b.m_ptr)

unfoldable pub join : Bridge → Option (Bridge × Event)
join b = do t ← thread_guard b.m_t; some (record b { m_t = t }, joined_with b.m_ptr)

unfoldable pub destroy : Bridge → Heap → Option Heap
unfolding delete_object
destroy b h = do left ← delete_object b.m_ptr h; _ ← release b.m_t; some left

-- The same for each element of a vector.
unfoldable pub copy_all : List Bridge → Heap → Option (List Bridge × Heap)
unfolding copy_bridge
copy_all [] h = some ([], h)
copy_all (b ∷ bs) h = do (c, h') ← copy_bridge b h; (cs, h'') ← copy_all bs h'; some (c ∷ cs, h'')

unfoldable pub for_all :
    (Bridge → Option (Bridge × Event)) → List Bridge → Option (List Bridge × List Event)
for_all f [] = some ([], [])
for_all f (b ∷ bs) = do (c, e) ← f b; (cs, es) ← for_all f bs; some (c ∷ cs, e ∷ es)

unfoldable pub destroy_all : List Bridge → Heap → Option Heap
unfolding destroy
destroy_all [] h = some h
destroy_all (b ∷ bs) h = do h' ← destroy b h; destroy_all bs h'

-- `Connector`, without its queue.
pub record Owner : Type 0 where
  pub m_poller : Bridge
  pub m_processors : List Bridge

-- `Connector connector(poller, processors)`: the parameters are made, the members are copied from
-- them, and the parameters are destroyed.
unfoldable pub construct : List Bridge → Heap → Option (Owner × Heap)
unfolding copy_all destroy_all
construct processors h = do
  let (poller_, with_poller) = wrap h
  (processors_, with_parameters) ← copy_all processors with_poller
  (m_poller, with_member) ← copy_bridge poller_ with_parameters
  (m_processors, whole) ← copy_all processors_ with_member
  without ← destroy_all processors_ whole
  left ← destroy poller_ without
  some (record { m_poller = m_poller; m_processors = m_processors }, left)

-- `Connector::start`
unfoldable pub start_and_join : Owner → Option (Owner × List Event)
unfolding start join for_all
start_and_join c = do
  (poller, s) ← start c.m_poller
  (processors, ss) ← for_all start c.m_processors
  (poller_joined, j) ← join poller
  (processors_joined, js) ← for_all join processors
  some (record { m_poller = poller_joined; m_processors = processors_joined }, s ∷ (ss ++ j ∷ js))

-- The members in the reverse order of their declarations.
unfoldable pub destroy_owner : Owner → Heap → Option Heap
unfolding destroy_all
destroy_owner c h = do without ← destroy_all c.m_processors h; destroy c.m_poller without

-- The connector of `main` from its constructor to its destructor.
unfoldable pub life : List Bridge → Heap → Option (List Event × Heap)
unfolding construct start_and_join destroy_owner
life processors h = do
  (c, constructed) ← construct processors h
  (c', events) ← start_and_join c
  left ← destroy_owner c' constructed
  some (events, left)
