-- ===== src/Workers/Delivery.antt =====
-- What passes from the poller to the processors through the queue of `Connector` (src/Connector.cpp).
use csv_to_kafka_using_cpp.Prelude.{
  true, false, not, List, [], ◌∷◌, ◌++◌, map, ◌≡◌, refl, sym, ap, ◌∙◌, arith, if◌then◌else◌, all,
  all-append, append-nil, append_assoc, Bool-cases, inl, inr,
}
use csv_to_kafka_using_cpp.Prelude.Text.{Text}
use csv_to_kafka_using_cpp.Processor.State.{Outcome}
use csv_to_kafka_using_cpp.Queue.{SafeQueue, enqueue, dequeue_with_timeout}
use csv_to_kafka_using_cpp.Poller.{PollResult, empty, Inotify, poll}
use csv_to_kafka_using_cpp.Workers.{poller_step, processor_step, Connector}

-- The `handle` of a class, which also writes down the paths that it is called with.
abbrev pub recorded :
    {S : Type 0}
    → (PollResult → S → S × Outcome (Unit {0}))
    → PollResult
    → S × List Text
    → (S × List Text) × Outcome (Unit {0})
recorded handle d (s, calls) = let r = handle d s in ((r.0, calls ++ d.m_result ∷ []), r.1)

-- The connector, and the paths that `poll` has given.
pub record Running (S : Type 0) : Type 0 where
  pub connector : Connector (S × List Text)
  pub polled : List Text

-- The path of a result, if it has one.
abbrev path_of : PollResult → List Text
path_of r = if empty r then [] else r.m_result ∷ []

abbrev paths : SafeQueue PollResult → List Text
paths queue = map (λ (r : PollResult). r.m_result) queue

module _ {S : Type 0} (handle : PollResult → S → S × Outcome (Unit {0})) where
  abbrev pub after_poller : Running S → Inotify → Running S
  after_poller s system =
      let r = poller_step s.connector.m_poller system s.connector.m_queue in
      record {
        connector = record (s.connector) { m_poller = r.0; m_queue = r.1 };
        polled = s.polled ++ path_of (poll s.connector.m_poller system).1;
      }

  abbrev pub after_processor : Running S → Running S
  after_processor s =
      let r = processor_step (recorded handle) s.connector.m_queue s.connector.site in
      record { connector = record (s.connector) { m_queue = r.0; site = r.1 }; polled = s.polled }

  -- A call of `step` by the poller's thread, or by the thread of a processor.
  pub data Turn : Running S → Running S → Type 0 where
    poller_turn : (s : Running S) (system : Inotify) → Turn s (after_poller s system)
    processor_turn : (s : Running S) → Turn s (after_processor s)

  pub data Reaches (s : Running S) : Running S → Type 0 where
    start : Reaches s s
    turn : {t u : Running S} → Reaches s t → Turn t u → Reaches s u

-- The paths that `handle` was called with.
abbrev pub handled : {S : Type 0} → Running S → List Text
handled s = s.connector.site.1

-- What was polled was handled or waits in the queue, in this order, and no empty result waits.
record Delivers {S : Type 0} (s : Running S) : Type 0 where
  pub in_order : handled s ++ paths s.connector.m_queue ≡ s.polled
  pub no_empty : all (λ r. not (empty r)) s.connector.m_queue ≡ true

paths-concat :
    (queue : SafeQueue PollResult) (r : PollResult)
    → paths (queue ++ r ∷ []) ≡ paths queue ++ r.m_result ∷ []
paths-concat [] r = refl
paths-concat (q ∷ queue) r = ap (◌∷◌ q.m_result) (paths-concat queue r)

-- What `AbstractPoller::step` puts into the queue.
enqueued_paths :
    (r : PollResult) (queue : SafeQueue PollResult)
    → paths (if not (empty r) then enqueue r queue else queue) ≡ paths queue ++ path_of r
unfolding enqueue
enqueued_paths r queue = elim (Bool-cases (empty r)) [
  | inl e ↦ rw e (sym (append-nil (paths queue)))
  | inr e ↦ rw e (paths-concat queue r)
]

enqueued_no_empty :
    (r : PollResult) (queue : SafeQueue PollResult)
    → all (λ q. not (empty q)) queue ≡ true
    → all (λ q. not (empty q)) (if not (empty r) then enqueue r queue else queue) ≡ true
unfolding enqueue
enqueued_no_empty r queue h = elim (Bool-cases (empty r)) [
  | inl e ↦ rw e h
  | inr e ↦ rw e (all-append (λ q. not (empty q)) queue (r ∷ []) h (rw e refl))
]

-- What `AbstractProcessor::step` takes out of it, and calls `handle` with.
step_paths :
    {S : Type 0} (handle : PollResult → S → S × Outcome (Unit {0})) (queue : SafeQueue PollResult)
    (site : S × List Text)
    → all (λ q. not (empty q)) queue ≡ true
    → let r = processor_step (recorded handle) queue site in
      (r.1.1 ++ paths r.0 ≡ site.1 ++ paths queue) × (all (λ q. not (empty q)) r.0 ≡ true)
unfolding processor_step dequeue_with_timeout
step_paths handle [] site h = (refl, refl)
step_paths handle (q ∷ queue) site h =
    let some_path : empty q ≡ false = ground arith in
    (rw some_path (append_assoc site.1 (q.m_result ∷ []) (paths queue)), ground arith)

module _ {S : Type 0} (handle : PollResult → S → S × Outcome (Unit {0})) where
  Turn-Delivers : (s t : Running S) → Turn handle s t → Delivers s → Delivers t
  unfolding poller_step
  Turn-Delivers s _ (poller_turn _ system) d =
      let r = (poll s.connector.m_poller system).1 in
      record {
        in_order =
            ap (◌++◌ (handled s)) (enqueued_paths r s.connector.m_queue)
            ∙ sym (append_assoc (handled s) (paths s.connector.m_queue) (path_of r))
            ∙ ap (λ (x : List Text). x ++ path_of r) d.in_order;
        no_empty = enqueued_no_empty r s.connector.m_queue d.no_empty;
      }
  Turn-Delivers s _ (processor_turn _) d =
      let (paths_kept, rest) = step_paths handle s.connector.m_queue s.connector.site d.no_empty in
      record { in_order = paths_kept ∙ d.in_order; no_empty = rest }

  Reaches-Delivers : (s t : Running S) → Reaches handle s t → Delivers s → Delivers t
  Reaches-Delivers s _ start d = d
  Reaches-Delivers s _ (turn {t = t} {u = u} r m) d = Turn-Delivers t u m (Reaches-Delivers s t r d)

  -- However the calls of `step` by the poller and by the processors interleave, each call as a whole,
  -- and whatever the `handle` of the processors does, from an empty queue on: the paths that
  -- `handle` was called with, followed by those in the queue, are the paths that `poll` gave, each
  -- once and in its order.
  pub polled_paths :
      (s t : Running S)
      → s.connector.m_queue ≡ []
      → s.polled ≡ []
      → handled s ≡ []
      → Reaches handle s t
      → handled t ++ map (λ (r : PollResult). r.m_result) t.connector.m_queue ≡ t.polled
  polled_paths s t q p h r =
      let start_delivers : Delivers s = record {
        in_order = rw (q, p, h) refl;
        no_empty = rw q refl;
      } in
      (Reaches-Delivers s t r start_delivers).in_order
