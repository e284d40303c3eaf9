-- ===== src/KafkaPoller/Served.antt =====
-- The delivery reports of a whole run of `KafkaPoller` (src/impl/KafkaPoller.cpp).
use csv_to_kafka_using_cpp.Prelude.{
  ℕ, ◌+◌, Bool, true, List, [], ◌∷◌, ◌++◌, ◌≡◌, refl, sym, ap, ◌∙◌, arith, map, length, append-nil,
  append_assoc, Bool-cases, inl, inr, if◌then◌else◌,
}
use csv_to_kafka_using_cpp.Prelude.Text.{Text, codes}
use csv_to_kafka_using_cpp.Queue.{SafeQueue, enqueue}
use csv_to_kafka_using_cpp.Logging.{info, error, log_at, create_log}
use csv_to_kafka_using_cpp.KafkaPoller.{
  Delivery, report_text, dr_cb, name, Serving, report_each, poll, Round, shutdown, reports, run,
}

-- The line for a report.
abbrev pub line_of : Text → Delivery → Text
line_of timestamp message =
    if message.err
    then create_log timestamp (codes "Message delivery failed: " ++ message.errstr) error
        (codes "KafkaDeliveryReportCb")
    else create_log timestamp (report_text message) info (codes "KafkaDeliveryReportCb")

-- The reports of the rounds, one behind the other.
abbrev pub served : List (List Delivery) → List Delivery
served [] = []
served (ms ∷ rounds) = ms ++ served rounds

dr_cb-line_of :
    (timestamp : Text) (message : Delivery) (queue : SafeQueue Text)
    → dr_cb timestamp message queue ≡ queue ++ line_of timestamp message ∷ []
unfolding dr_cb log_at enqueue
dr_cb-line_of timestamp message queue = elim (Bool-cases message.err) [
  | inl e ↦ rw e refl
  | inr e ↦ rw e refl
]

report_each_lines :
    (timestamp : Text) (ms : List Delivery) (queue : SafeQueue Text)
    → report_each timestamp ms queue ≡ queue ++ map (line_of timestamp) ms
report_each_lines timestamp [] queue = sym (append-nil queue)
report_each_lines timestamp (message ∷ ms) queue = rw (dr_cb-line_of timestamp message queue) (
    report_each_lines timestamp ms (queue ++ line_of timestamp message ∷ [])
    ∙ append_assoc queue (line_of timestamp message ∷ []) (map (line_of timestamp) ms))

map-append : {A B : Type 0} (f : A → B) (xs ys : List A) → map f (xs ++ ys) ≡ map f xs ++ map f ys
map-append f [] ys = refl
map-append f (x ∷ xs) ys = ap (◌∷◌ (f x)) (map-append f xs ys)

ended_eq :
    {n m : ℕ} {q r : SafeQueue Text}
    → n ≡ m
    → q ≡ r
    → ◌≡◌ {A = Serving × Bool}
        (record { polls = n; log_queue = q }, true)
        (record { polls = m; log_queue = r }, true)
ended_eq {m} {q} e f =
    ap (λ (k : ℕ). (record { polls = k; log_queue = q }, true)) e
    ∙ ap (λ (l : SafeQueue Text). (record { polls = m; log_queue = l }, true)) f

-- The last line.
abbrev pub goodbye : Text → Text
goodbye timestamp = create_log timestamp (codes "Shutting down") info name

-- The thread ends at the first round that finds a shutdown requested, whatever comes later. Until
-- then it has polled once in each round, and every report is one line of the log, in order, an error
-- where the delivery failed; the last line is its own.
pub run-served :
    (timestamp : Text) (rounds : List (List Delivery)) (later : List Round) (s : Serving)
    → run timestamp (map reports rounds ++ shutdown ∷ later) s ≡ (
      record {
        polls = s.polls + length rounds;
        log_queue =
            s.log_queue ++ map (line_of timestamp) (served rounds) ++ goodbye timestamp ∷ [];
      },
      true,
    )
unfolding run poll log_at enqueue
run-served timestamp [] later s =
    ended_eq (omega arith)
      (ap (λ (q : SafeQueue Text). q ++ goodbye timestamp ∷ []) (sym (append-nil s.log_queue)))
run-served timestamp (ms ∷ rounds) later s =
    let lines = map (line_of timestamp) ms in
    let rest = map (line_of timestamp) (served rounds) in
    run-served timestamp rounds later (poll timestamp ms s)
    ∙ ended_eq (omega arith) (
        ap (λ (q : SafeQueue Text). q ++ goodbye timestamp ∷ [])
          (ap (λ (q : SafeQueue Text). q ++ rest) (report_each_lines timestamp ms s.log_queue)
            ∙ append_assoc s.log_queue lines rest
            ∙ ap (◌++◌ s.log_queue) (sym (map-append (line_of timestamp) ms (served rounds)))))
