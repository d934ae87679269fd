-- ===== src/Package.antt =====
-- crates/dictation-core/src/package.rs: the upload package. A `PackageError` is its code, a byte is a
-- number below 256, and a `BTreeMap` the list of its entries in the order of the keys. `usize` has 64
-- bits. The digest of sha2, tar and the JSON printer and parser are arguments.
pub mod Wav
pub mod Json
pub mod Header
pub mod Validate
pub mod Build
pub mod Archive
mod Examples
