-- ===== src/Tests/Program.antt =====
-- The start of the program and the life of its threads at concrete inputs.
use csv_to_kafka_using_cpp.Prelude.{ℕ, ◌<◌, none, some, List, [], ◌∷◌, ◌++◌, map, ◌≡◌, refl}
use csv_to_kafka_using_cpp.Prelude.Text.{Text, codes}
use csv_to_kafka_using_cpp.Prelude.Dict.{Dict}
use csv_to_kafka_using_cpp.Processor.Builder.{nullptr}
use csv_to_kafka_using_cpp.Main.{Shared, processor_thread_count}
use csv_to_kafka_using_cpp.Main.Kafka.{RdKafka, IsReported, kafka_setup}
use csv_to_kafka_using_cpp.Main.Processors.{prepare, IsPrepared, prepare-IsPrepared}
use csv_to_kafka_using_cpp.Threads.{Heap, is_live, no_thread, Bridge, started, joined_with, life}
use csv_to_kafka_using_cpp.Threads.Clones.{from}
use csv_to_kafka_using_cpp.Threads.Joined.{life_joined}

abbrev shared : Shared ℕ
shared = record {
  active_processors = 3;
  log_cv = 4;
  log_cv_mutex = 5;
  transformers = 2;
  kafka_producer = nullptr;
  schemas = (codes "a", 0) ∷ [];
  sig_channel = 1;
}

-- A library that counts what is set.
abbrev rd_kafka : RdKafka
rd_kafka = record {
  Conf = Dict Text;
  new_conf = [];
  set = λ key value conf. ((key, value) ∷ conf, none);
  set_dr_cb = λ conf. (conf, some (codes "no callback"));
  create_producer = λ conf. (some 6, []);
}

abbrev kafka_config : Dict Text
kafka_config = (codes "bootstrap.servers", codes "localhost") ∷ (codes "client.id", codes "me") ∷ []

abbrev clock : ℕ → Text
clock n = codes "now"

prepare-IsPrepared_example :
    IsPrepared shared refl
      (kafka_setup rd_kafka clock kafka_config []).1
      (some 7)
      (processor_thread_count 8)
      (prepare rd_kafka clock kafka_config [] shared (some 7) 8).1
    × IsReported rd_kafka [] (prepare rd_kafka clock kafka_config [] shared (some 7) 8).0
    × ((kafka_setup rd_kafka clock kafka_config []).1 ≡ nullptr
        → 0 < (prepare rd_kafka clock kafka_config [] shared (some 7) 8).0.interrupts)
prepare-IsPrepared_example =
    prepare-IsPrepared rd_kafka clock kafka_config [] shared (some 7) 8 refl

abbrev processors : List Bridge
processors = record { m_ptr = 1; m_t = no_thread } ∷ record { m_ptr = 3; m_t = no_thread } ∷ []

abbrev heap : Heap
heap = record { next = 5; live = 1 ∷ 3 ∷ [] }

life_joined_example :
    life processors heap
    ≡ some (
      started 8 ∷ (map started (from 9 2) ++ joined_with 8 ∷ map joined_with (from 9 2)),
      record { next = 11; live = 1 ∷ 3 ∷ [] },
    )
unfolding is_live
life_joined_example = life_joined processors heap refl refl
