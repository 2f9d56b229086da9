-- ===== src/Jpeg.antt =====
-- JpgSpinner.JpegTransformation: the bounded structural scan of an encoded JPEG.
pub mod Outcome
pub mod Bytes
pub mod Inventory
pub mod Markers
pub mod Ordering
pub mod IccChunks
pub mod XmpChunks
pub mod FrameHeader
pub mod C2pa
pub mod Fragments
pub mod Jumbf
pub mod Segments
pub mod Steps
pub mod Scanner
pub mod Output
pub mod OutputRules
pub mod Validator
