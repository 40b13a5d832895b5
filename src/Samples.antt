-- ===== src/Samples.antt =====
-- Runs of the code on small inputs: a platform that holds one release, and texts, for the tests and
-- for the instances of the theorems.
pub mod Platform
pub mod Changelogs
pub mod Publication
pub mod Manifests
pub mod Versions
pub mod Requests
pub mod Streams
pub mod Policies
pub mod Loading
pub mod Keys
pub mod Signatures
pub mod Verification
