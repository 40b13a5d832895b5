-- ===== src/Lib.antt =====
-- A model of release-me, a tool that publishes software releases: it reads versions and manifests,
-- uploads the files of a release to a draft on GitHub or Forgejo, verifies what is stored, and then
-- makes the draft public. The files and the code they model:
--
--   Semver                internal/semver/semver.go: `Parse`, `ParseTag`, `String`, `Compare`
--   Manifest              internal/manifest/manifest.go: SHA256SUMS files, `Add`, `Lookup`, `Bytes`,
--                         `Parse`, `FromDir`, `Check`, `Diff`
--   Host                  internal/host/host.go: the release API, with the errors of its clients
--   Client                internal/host/client.go: `retryable`, `DoIdempotent`, `Stream`, `PostJSON`
--   Publish               internal/publish/publish.go: `Run` and all that it calls, `LoadAssets`
--   Sshsig                internal/sshsig/sshsig.go: the signature format, `Sign`, `Parse`, `Verify`
--   Signers               internal/sshsig/allowed.go: the parser, the patterns, `Verify`, revoked keys
--   Tag                   internal/gittag/gittag.go: `ParseObject`, `VerifySignature`
--   Policy                internal/verify/policy.go: `Validate`, `Requires`, `prefix`
--   Verify                internal/verify/verify.go: `Run` and all that it calls
--   Intoto                internal/intoto/intoto.go and github.go: statements and their provenance
--   Sigstore              internal/sigstore/sigstore.go: `Verify`, `PayloadOf`
--   Changelog             internal/changelog/changelog.go: `Parse`, `Latest`, `Section`, `Lint`, `Release`
--   Snappy                internal/host/snappy.go: `DecodeSnappy`
--   Samples               runs and instances on small inputs
--   Prelude               byte strings, lists, decimal numbers, results, the order of byte strings
--
-- The children of a module hold its proofs, and the parts of a large one. Manifest.Search has the
-- binary search that `Add` and `Lookup` use, Manifest.Sorted the reference they are compared
-- with. Publish.Exec is the state and error monad: the state (`Publish.Types.State`) holds the
-- platform, the memo `Options.verified`, the lists of `Result`, and the record of the calls with
-- their answers, newest first. Publish.Log has the rules by which a step's calls are bounded,
-- Publish.Checked and Publish.Compared what `check` and `compare` establish, Publish.Final the
-- listings before and after the publish call.
--
-- Correspondence. A Go string is a list of its bytes, a number is a natural number, an error is a
-- constructor with what the message quotes. `uint64` numbers are bounded where they are parsed;
-- lengths and sizes are not negative in the code. A map is an association list, and the order in
-- which Go ranges over its keys is a parameter (`Env.range_order`). The platform is a parameter:
-- any functions on any state, which may answer anything at each call, so that crashes of the
-- platform, foreign writers and lost answers are covered. SHA-256 is a parameter, as is what the
-- program reads of a directory. A download is its bytes and whether the connection breaks behind
-- them. Log lines, contexts and the text of errors are left out, but the text of a platform's
-- error, which `IsNotFound` reads. The texts of `Report.Checks` are left out too. The result of
-- `LoadAssets` is an argument of `run`, whose theorems hold for any assets with a digest. The
-- package golang.org/x/crypto/ssh and its keys are a parameter (`Sshsig.Ssh`), as are the packages
-- of sigstore-go (`Sigstore.Sigstore`). JSON is a parameter too: `Intoto.Codec` reads a statement
-- from a text, and a provenance from and to a JSON value. The verification of a release is a state
-- and error monad (`Verify.Exec`) over the number of downloads and the files of the directory, so
-- that each download may have another answer, and a file that is downloaded twice is replaced. Text
-- that is trimmed is taken to be ASCII. A time before the year 1 has no counterpart. The regular
-- expressions of the changelog are tests of a line, and its sections keep their lines where the
-- code keeps the indices of the first and the last. The client's sending and sleeping are
-- parameters too; its backoff is not cut to 64 bits, which it cannot reach within a wait that is
-- allowed. A time is the number of nanoseconds since the zero time. A value of `Rounds` below zero
-- acts as 0 in the code and has no counterpart.
--
-- Fuel. The binary search gets as many rounds as there are indices, which is enough as every round
-- shrinks the interval. The snappy decoder gets as many rounds as there are bytes, and every round
-- takes one. The lines of an armored signature get as many rounds as there are characters, and
-- every round takes 70. The rounds of `Run` are the code's own bound. Everything else is recursion
-- on lists.
--
-- Not modelled: HTTP and the syntax of JSON (internal/host/github.go, forgejo.go, the requests of
-- client.go), the calls of git and the split of the tagger line (internal/gittag), the signing and
-- the trust roots of internal/sigstore, archives (internal/archive), the platform that the tests use
-- (internal/host/fake), and the command line (cmd).
pub mod Prelude
pub mod Semver
pub mod Manifest
pub mod Host
pub mod Publish
pub mod Changelog
pub mod Client
pub mod Intoto
pub mod Policy
pub mod Samples
pub mod Signers
pub mod Sigstore
pub mod Snappy
pub mod Sshsig
pub mod Tag
pub mod Verify
