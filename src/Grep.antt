-- ===== src/Grep.antt =====
-- grep.py: patterns over the changes of a record, and the marks on what they match.
pub mod Spans
pub mod Patterns
pub mod Evaluate
pub mod Render
