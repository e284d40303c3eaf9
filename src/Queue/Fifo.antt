-- ===== src/Queue/Fifo.antt =====
-- The order in which the elements of a `SafeQueue` (src/SafeQueue.h) leave it.
use csv_to_kafka_using_cpp.Prelude.{
  none, some, List, [], ◌∷◌, ◌++◌, ◌≡◌, sym, ap, ◌∙◌, append-nil, append_assoc,
}
use csv_to_kafka_using_cpp.Queue.{SafeQueue, enqueue, dequeue, dequeue_with_timeout}

-- One call, by any thread.
pub data Call (T : Type 0) : Type 0 where
  enqueue_of : T → Call T
  dequeue_of : Call T
  timeout_of : T → Call T

module _ {T : Type 0} where
  -- What has left the queue after a call. A waiting `dequeue` is a call that has not happened yet.
  abbrev call : Call T → SafeQueue T → List T × SafeQueue T
  call (enqueue_of t) queue = ([], enqueue t queue)
  call dequeue_of queue = elim (dequeue queue) [
    | none ↦ ([], queue)
    | some (t, rest) ↦ (t ∷ [], rest)
  ]
  call (timeout_of val) [] = ([], (dequeue_with_timeout [] val).1)
  call (timeout_of val) (t ∷ queue) =
      ((dequeue_with_timeout (t ∷ queue) val).0 ∷ [], (dequeue_with_timeout (t ∷ queue) val).1)

  -- The calls in the order in which they get the mutex.
  pub run_calls : List (Call T) → SafeQueue T → List T × SafeQueue T
  run_calls [] queue = ([], queue)
  run_calls (c ∷ cs) queue =
      let r = call c queue in let later = run_calls cs r.1 in (r.0 ++ later.0, later.1)

  pub put_in : List (Call T) → List T
  put_in [] = []
  put_in (enqueue_of t ∷ cs) = t ∷ put_in cs
  put_in (_ ∷ cs) = put_in cs

  -- Whichever threads make the calls and in whatever order, the elements leave in the order in
  -- which they were put in, each once: those that left, with those still there, are those that
  -- were there at first and those put in.
  pub run_calls_fifo :
      (cs : List (Call T)) (queue : SafeQueue T)
      → (run_calls cs queue).0 ++ (run_calls cs queue).1 ≡ queue ++ put_in cs
  unfolding run_calls put_in enqueue dequeue dequeue_with_timeout
  run_calls_fifo [] queue = sym (append-nil queue)
  run_calls_fifo (enqueue_of t ∷ cs) queue =
      run_calls_fifo cs (enqueue t queue) ∙ append_assoc queue (t ∷ []) (put_in cs)
  run_calls_fifo (dequeue_of ∷ cs) [] = run_calls_fifo cs []
  run_calls_fifo (dequeue_of ∷ cs) (t ∷ queue) = ap (◌∷◌ t) (run_calls_fifo cs queue)
  run_calls_fifo (timeout_of val ∷ cs) [] = run_calls_fifo cs []
  run_calls_fifo (timeout_of val ∷ cs) (t ∷ queue) = ap (◌∷◌ t) (run_calls_fifo cs queue)
