-- ===== src/ReleaseAdmission.antt =====
-- scripts/toolchain/release-admission-v2.py: the admission of a release by the metadata of the
-- repository and of the provider.
pub mod Checks
pub mod Session
pub mod Pages
pub mod Inputs
pub mod Runtime
pub mod Governance
pub mod Pull
pub mod Ci
pub mod Receipt
pub mod Admit
pub mod Examples
