-- ===== src/Processor.antt =====
-- src/impl/CsvProcessor.cpp and src/impl/CsvProcessorBuilder.cpp: from a file to Kafka messages.
pub mod Frame
pub mod State
pub mod Publish
pub mod Handle
pub mod Several
pub mod Builder
