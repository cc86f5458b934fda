-- ===== src/Core/Duplicates.antt =====
-- core/duplicate_merge/detector.py: `DuplicateDetector`. The ratio of difflib's `SequenceMatcher` is
-- an argument.
pub mod Tokens
pub mod Detector
pub mod Candidates
pub mod Complete
