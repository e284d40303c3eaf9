-- ===== src/Workers.antt =====
-- src/AbstractWorker.cpp, src/AbstractPoller.cpp, src/AbstractProcessor.cpp, src/Connector.cpp and
-- src/SignalChannel.h: the threads around the queue.
pub mod Delivery
use csv_to_kafka_using_cpp.Prelude.{ℕ, Bool, true, false, not, List, [], ◌∷◌, ◌++◌, if◌then◌else◌}
use csv_to_kafka_using_cpp.Prelude.Text.{Text}
use csv_to_kafka_using_cpp.Transformers.{Transformer}
use csv_to_kafka_using_cpp.Processor.State.{Library, Outcome, value}
use csv_to_kafka_using_cpp.Processor.Handle.{Site, handle}
use csv_to_kafka_using_cpp.Queue.{SafeQueue, enqueue, dequeue_with_timeout}
use csv_to_kafka_using_cpp.Poller.{PollResult, empty, DirectoryPoller, Inotify, poll}

-- `AbstractWorker::run`: what the loads of `m_shutdown_requested` give, until one is true, and the
-- states in which `step` finds the worker. `none` of the loads left means that it still runs.
module _ {S : Type 0} (step : S → S) (clean : S → S) where
  unfoldable pub run : List Bool → S → S × Bool
  run [] s = (s, false)
  run (shutdown_requested ∷ loads) s =
      let rest = run loads (step s) in if shutdown_requested then (clean s, true) else rest

-- `AbstractPoller::step`
unfoldable pub poller_step :
    DirectoryPoller → Inotify → SafeQueue PollResult → DirectoryPoller × SafeQueue PollResult
unfolding enqueue
poller_step poller system queue =
    let r = poll poller system in (r.0, if not (empty r.1) then enqueue r.1 queue else queue)

-- `AbstractProcessor::step` over the `handle` of its class: the queue, and the state and the outcome
-- of the call, if there is one.
module _ {S : Type 0} (handle : PollResult → S → S × Outcome (Unit {0})) where
  unfoldable pub processor_step :
      SafeQueue PollResult → S → SafeQueue PollResult × S × Outcome (Unit {0})
  unfolding dequeue_with_timeout
  processor_step queue site =
      let d = dequeue_with_timeout queue (record { m_result = [] }) in
      let handled = handle d.0 site in
      let r = if not (empty d.0) then handled else (site, value tt) in (d.1, r.0, r.1)

-- `CsvProcessor::handle` in place of it.
abbrev pub csv_handle :
    (library : Library)
    → List Transformer
    → PollResult
    → Site library
    → Site library × Outcome (Unit {0})
csv_handle library m_transformers d = handle library m_transformers d.m_result

-- `Connector`: one poller and the processors, whose threads run until they are joined. They share
-- the queue, and the state that `handle` works on.
pub record Connector (S : Type 0) : Type 0 where
  pub m_poller : DirectoryPoller
  pub m_queue : SafeQueue PollResult
  pub site : S
