-- ===== src/Csv.antt =====
-- src/csv: rows, the row iterator and the range over a file.
pub mod Stream
pub mod Row
pub mod Iterator
pub mod Table
