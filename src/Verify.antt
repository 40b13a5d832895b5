-- ===== src/Verify.antt =====
-- internal/verify/verify.go: the verification of a published release. `Exec` is the state and error
-- monad, `Types` the state and what surrounds the program, `Fetch` the downloads, `Evidence` the
-- signatures, `Contents` the provenance and the rebuild, `Run` the whole. The other children have the
-- proofs.
pub mod Types
pub mod Exec
pub mod Fetch
pub mod Evidence
pub mod Contents
pub mod Run
pub mod Kept
pub mod Fetched
pub mod Signed
pub mod Ssh
pub mod Bundled
pub mod Provenance
pub mod Complete
