-- ===== src/Queue.antt =====
-- src/SafeQueue.h: the queue between threads. Its mutex makes each operation one step.
pub mod Fifo
use csv_to_kafka_using_cpp.Prelude.{ℕ, Option, none, some, List, [], ◌∷◌, ◌++◌, length}

-- `std::queue`, its front first. A `SafeQueue` holds nothing else that outlives an operation.
abbrev pub SafeQueue : Type 0 → Type 0
SafeQueue T = List T

module _ {T : Type 0} where
  unfoldable pub enqueue : T → SafeQueue T → SafeQueue T
  enqueue t queue = queue ++ t ∷ []

  -- `none` where the call goes on waiting for an element.
  unfoldable pub dequeue : SafeQueue T → Option (T × SafeQueue T)
  dequeue [] = none
  dequeue (t ∷ queue) = some (t, queue)

  -- `queue` is the queue when the wait ends. An empty one, after the timeout, leaves `val` alone.
  unfoldable pub dequeue_with_timeout : SafeQueue T → T → T × SafeQueue T
  dequeue_with_timeout [] val = (val, [])
  dequeue_with_timeout (t ∷ queue) val = (t, queue)

  abbrev pub queue_size : SafeQueue T → ℕ
  queue_size queue = length queue
