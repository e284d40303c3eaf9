-- ===== src/KafkaPoller.antt =====
-- src/impl/KafkaPoller.cpp and src/impl/KafkaDeliveryReportCb.cpp: the thread that serves the delivery
-- reports, and what a report leaves in the log.
pub mod Served
use csv_to_kafka_using_cpp.Prelude.{ℕ, ◌+◌, Bool, true, false, List, [], ◌∷◌, ◌++◌, if◌then◌else◌}
use csv_to_kafka_using_cpp.Prelude.Text.{Text, codes}
use csv_to_kafka_using_cpp.Prelude.Int.{ℤ}
use csv_to_kafka_using_cpp.Prelude.Decimal.{decimal_ℤ}
use csv_to_kafka_using_cpp.Queue.{SafeQueue}
use csv_to_kafka_using_cpp.Logging.{info, error, log_at}

-- What the callback reads of a `RdKafka::Message`.
pub record Delivery : Type 0 where
  pub err : Bool
  pub errstr : Text
  pub topic_name : Text
  pub partition : ℤ
  pub offset : ℤ

abbrev pub report_text : Delivery → Text
report_text message =
    codes "Message delivered to topic "
    ++ message.topic_name
    ++ codes " ["
    ++ decimal_ℤ message.partition
    ++ codes "] at offset "
    ++ decimal_ℤ message.offset

unfoldable pub dr_cb : Text → Delivery → SafeQueue Text → SafeQueue Text
dr_cb timestamp message log_queue =
    if message.err
    then log_at error timestamp (codes "Message delivery failed: " ++ message.errstr)
        (codes "KafkaDeliveryReportCb") log_queue
    else log_at info timestamp (report_text message) (codes "KafkaDeliveryReportCb") log_queue

abbrev pub name : Text
name = codes "KafkaPoller"

-- `start`, behind the creation of the thread.
unfoldable pub start : Text → SafeQueue Text → SafeQueue Text
start timestamp log_queue = log_at info timestamp (codes "Started") name log_queue

-- `poll(0)` of the producer calls the callback once for each report that is there.
pub record Serving : Type 0 where
  pub polls : ℕ
  pub log_queue : SafeQueue Text

abbrev pub report_each : Text → List Delivery → SafeQueue Text → SafeQueue Text
report_each timestamp [] log_queue = log_queue
report_each timestamp (message ∷ ms) log_queue =
    report_each timestamp ms (dr_cb timestamp message log_queue)

unfoldable pub poll : Text → List Delivery → Serving → Serving
unfolding dr_cb
poll timestamp reports s = record {
  polls = s.polls + 1;
  log_queue = report_each timestamp reports s.log_queue;
}

-- What a round meets: whether a shutdown is requested, and else the reports that `poll` finds.
pub data Round : Type 0 where
  shutdown : Round
  reports : List Delivery → Round

-- `run`, through the given rounds; false where it still runs after them.
unfoldable pub run : Text → List Round → Serving → Serving × Bool
unfolding poll
run timestamp [] s = (s, false)
run timestamp (shutdown ∷ rounds) s =
    (record s { log_queue = log_at info timestamp (codes "Shutting down") name s.log_queue }, true)
run timestamp (reports ms ∷ rounds) s = run timestamp rounds (poll timestamp ms s)
