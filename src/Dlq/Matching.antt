-- ===== src/Dlq/Matching.antt =====
-- What mapResults promises: it succeeds exactly on a one-to-one answer, and its rows are the
-- rejected jobs.
pub mod Index
pub mod Answers
pub mod Rows
pub mod Order
