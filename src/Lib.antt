-- ===== src/Lib.antt =====
-- aros-toolchains: the Python scripts that plan, bind and admit the builds of the AROS
-- cross-toolchain releases, as executable definitions and theorems about them.
--
-- The repository pins the inputs of the toolchains (toolchains/) and qualifies a release in CI. A
-- release plan is a JSON document that lists groups of compiler inputs, the lanes (a compiler
-- profile of a group on a host) and the SDKs. scripts/toolchain/select-release-matrix-v2.py
-- validates it against digests and commits that were selected independently, and projects it to
-- the matrices of a CI run. scripts/toolchain/compiler-owner-matrix-v2.py takes that projection
-- and names the owner of each compiler build, by whose names later jobs find the artifacts.
-- scripts/toolchain/sdk-owner-matrix-v2.py does so for the SDK builds. scripts/ci/plan-changes.py
-- decides whether a pull request may skip that whole path, and
-- scripts/toolchain/release-admission-v2.py decides, from what the provider reports, whether the
-- commit at the end of main may become a release.
--
-- ReleaseMatrix and its children model select-release-matrix-v2.py: _validate_reference and the
-- group loop (ReleaseMatrix/References), the lane loop and the check of its host sets
-- (ReleaseMatrix/Lanes), the SDK loop (ReleaseMatrix/Sdks), _validate_plan (ReleaseMatrix/Plan),
-- _select_scope and project (ReleaseMatrix/Project). CompilerOwners models _projection_route,
-- _owner_id and _project_owners, with the proofs by parts of the latter (Names, Digests, Groups,
-- Loop, Total) and their composition with project in CompilerOwners/Accepted. ChangePlan models
-- plan-changes.py: _parse_raw_diff on bytes (ChangePlan/Records), _safe_path, plan_changes and
-- _normalize_ref_options. CacheArchive models the member paths and the plan of
-- scripts/toolchain/cache-archive-transport.py, by which a build cache is restored:
-- _normalized_member_path and _member_record (CacheArchive/Records), and _plan_members;
-- CacheArchive/Names says which names are read, and as which paths (CacheArchive/Stripped has
-- what is taken off a name, CacheArchive/Paths what an accepted path is). ArtifactOrigin models
-- of scripts/toolchain/artifact-origin.py the portable inventory of a signed origin, the claims
-- of the runner's token (ArtifactOrigin/Token, require_oidc_claims) and, in
-- ArtifactOrigin/Provider, the numbers, jobs and artifacts that the provider reports: positive,
-- complete_jobs, select_job and select_artifact. ArtifactOrigin/Source has the context of a run
-- and its observation (validate_context, observe_run_event), ArtifactOrigin/Selection the lane
-- and the selection that a caller owns (selection, source_selection, select_source_job),
-- ArtifactOrigin/Archive the check of a downloaded ZIP archive (verify_zip), and
-- ArtifactOrigin/Reader composes them as verify does, from the signed record to the archive.
-- SdkOwners models the owners of the SDK builds (_projection_route, _owner_id, _project_owners),
-- and SdkOwners/Closure relates them to the generations that are expected. RequiredPayload models
-- scripts/toolchain/required-compiler-payload-v2.py: the policy of the paths that each profile's
-- payload must have (RequiredPayload/Documents), and its selection on the lanes of a projected
-- plan. ReplayMatrix models scripts/toolchain/select-replay-matrix.py.
--
-- ReleaseAdmission and its children model release-admission-v2.py: the tests of values (Checks),
-- the pages of a list (Pages, paginated), the committed inputs and the event (Inputs), the
-- repository, main and the runtime release (Runtime), the ruleset of the tags (Governance,
-- _governance, with its query in Governance/Bypass; the ruleset that is found, the query's answer
-- and the receipt that is kept are described in Governance/Found, Governance/Unbypassed and
-- Governance/Kept), the pull request of the candidate (Pull), the CI run and the absence of a tag
-- (Ci), the receipt (Receipt) and admission, recheck and the probe of visibility (Admit;
-- Admit/Fit takes the parts of a receipt back to the steps that returned them). Checks/Inverted
-- says what a value is that a check accepted. RuntimeLock models validate_lock of
-- scripts/toolchain/materialize-aros-tools-runtime.py, which the admission calls on its committed
-- lock.
--
-- The admission reads the world many times while it runs, and the world may change in between. A
-- Session (ReleaseAdmission/Session) is a function of a World and of the number of requests made
-- so far: the World answers a request by its number and its path, so that two reads of one path
-- may differ, and a Session returns its value with the next number, or raises. Nothing that the
-- admission does writes. A fact of the provider is therefore a fact about one request.
--
-- Prelude, Text, Sorted and Json are what these scripts use of Python: tests, lists and dicts,
-- exceptions as values of Result, text tests in place of regular expressions, sorted() and sets
-- as ascending lists, and parsed JSON documents. A dict is an association list in insertion
-- order; a set that is only tested is the list of its members. The variables of a loop are a
-- record, one round is a function into Result, and the loop is a fold. Each exception class is a
-- constructor of Exception and carries the message of the source.
--
-- Bounds: the loops recurse on the lists that they read. The pages of a list are read on
-- MAX_PAGES rounds as fuel, as the source does; ReleaseAdmission/Pages/Complete says when they
-- are enough. str(n) recurses on n as fuel, which is enough by Text.Bytes.read_decimal-decimal.
-- Numbers are unbounded, as in Python. The theorems on names take run numbers below 10^16, which
-- artifact-origin.py requires of them.
--
-- Parameters: SHA-256 is a function from bytes to text; the outcome of the Git process is a
-- function of the two commits. Of the admission, the World holds the answers of the provider, the
-- results of Git, the decoder of UTF-8, the parsers of JSON and of dates, SHA-256 and the clock.
-- Of the artifact reader, a record of sources holds the measurements of its files before and
-- after, the parsed record, the answers of gh, what its attestation check printed, and the
-- archive as the ZIP reader yields it: members with their fields, and the blocks of each, any of
-- which may be an error. Not modelled: reading and writing of files, the JSON parser, argument
-- parsers, calls of the provider, the shell scripts and workflows.
pub mod ArtifactOrigin
pub mod CacheArchive
pub mod ChangePlan
pub mod CompilerOwners
pub mod Json
pub mod Prelude
pub mod ReleaseAdmission
pub mod ReleaseMatrix
pub mod ReplayMatrix
pub mod RequiredPayload
pub mod RuntimeLock
pub mod SdkOwners
pub mod Sorted
pub mod Text
