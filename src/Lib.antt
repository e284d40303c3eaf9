-- ===== src/Lib.antt =====
-- Verification library for flycatcher, the program that sends CSV files to Kafka.
--
-- The program watches a directory (src/impl/DirectoryPoller.cpp). Each file that is closed there
-- goes through a queue (src/SafeQueue.h) to one of several processors (src/impl/CsvProcessor.cpp).
-- A processor renames the file to `_inprogress`, reads it row by row (src/csv), applies the
-- transformers of the configuration (src/transformers, src/config/ConfigParser.cpp), makes an Avro
-- record for each topic, frames it with its schema id (src/impl/SchemaRegistry.cpp), hands it to the
-- Kafka producer, and renames the file to `_done`. What happens is logged through a second queue
-- (src/logging). src/main.cpp reads the arguments and puts the parts together.
--
-- Files:
-- - Prelude: Booleans, lists over the native numbers, byte strings, ordered maps, C++ results
--   (a value, an exception or undefined behaviour) and the integer conversions of the C library.
-- - Csv: Stream is `std::istream` and `getline`; Row is `CSVRow`; Iterator is `CSVIterator` with
--   the range-based loop over `CSVRange`, and Table are files written from a table of values.
-- - Util: src/impl/Util.cpp.
-- - Transformers: the classes as one data type, `operation` as their virtual function, and the
--   factory as a table.
-- - Registry: `SchemaRegistry`, over a record `Serdes` for libserdes.
-- - Config: `ConfigParser`, over records `Yaml` and `Avro` for yaml-cpp and avro-cpp; Loading is its
--   object, and what it reads over HTTP, over a record `Rest` for cpprestsdk; Transforms builds the chain
--   of transformers, Schemas the topics.
-- - Processor: Frame is `serialize`; State and Publish are `publish` on an explicit state, with
--   the producer as a list of answers; Handle is `handle` on a directory, and Several are
--   calls of it at the same time, a change of the directory at a time; Builder is
--   `CsvProcessorBuilder`.
-- - Poller: `DirectoryPoller` on Linux, with what inotify reports as input; MacOs is the variant
--   of src/impl/DirectoryPollerMacOS.cpp, with listings of the directory.
-- - Queue and Workers: `SafeQueue`, the steps of the threads, over any `handle` of a class of processors,
--   and their interleavings, each step as a whole.
-- - Threads: `ThreadGuard`, the bridges and the life of `Connector`, with objects as addresses on a
--   heap and a thread as the state of its `std::unique_ptr`.
-- - KafkaPoller: src/impl/KafkaPoller.cpp with the callback of src/impl/KafkaDeliveryReportCb.cpp.
-- - Logging: levels, lines and loggers. LogProcessor is the thread of that class, one shared access at
--   a time among the other threads; FileLogger is the file that is opened again from time to time.
-- - Main: `parse_args`, over the modes that `stat` gives, and the number of processors; Kafka and Processors are `main` from the Kafka
--   settings, over a record `RdKafka` for librdkafka, to the processors with their builders.
--   Shutdown is the rest of `main` with all threads of the program, a step at a time, up to its
--   return.
-- - ResultContainer: src/ResultContainer.h, which nothing uses.
-- - Tests: the theorems at concrete inputs.
--
-- Machine integers are native numbers with their bounds written out: `int` and `long` conversions
-- are in Prelude/Int, the counter of active processors wraps at 2^64 and the number of threads at
-- 2^32. Three loops of the model have fuel. The loop over the rows gets two rounds more than the file
-- has characters, and each round but the last two reads a line end; the loop over a header gets one
-- round more than the header has characters, since each round but the last reads a comma. The log's
-- last loop needs one round more than there are lines, and a number has fewer digits than its fuel. The retries of `publish` follow the list of
-- the producer's answers; `waiting` says that the list ended before the producer took the message.
--
-- Two functions of the source have no `return` statement, `operator<<` of `CSVRow` and
-- `init_dir_watch`; the model takes them as returning their stream and true. `CsvProcessor` keeps a
-- pointer to the largest age that nothing initializes where the configuration has none; `publish`
-- is modelled with a null pointer there, and `build` with the indeterminate one.
--
-- Not modelled: the wording of what `handle` and the pollers log and all timestamps, what a signal
-- does before `main` has blocked it (sending SIGINT is a flag or a counter where it is noted),
-- the move constructor of src/ResultContainer.h, which cannot be compiled, and the print of `usage`.
pub mod Prelude
pub mod Csv
pub mod Util
pub mod Transformers
pub mod Registry
pub mod Config
pub mod Processor
pub mod Poller
pub mod Queue
pub mod Workers
pub mod Threads
pub mod KafkaPoller
pub mod Logging
pub mod Main
pub mod ResultContainer
pub mod Tests
