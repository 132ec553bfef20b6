-- ===== src/Marker.antt =====
-- src/marker.rs: scanners that find end-of-response markers in a stream of chunks. `Search` and `Set`
-- have the searches, `Scanner` and `Response` the two scanners; the proofs are in the other children.
pub mod Search
pub mod Set
pub mod Scanner
pub mod Response
pub mod Clear
pub mod SetLaws
pub mod Stream
pub mod Bounds
pub mod Prefix
pub mod ResponseLaws
pub mod Watch
pub mod Complete
