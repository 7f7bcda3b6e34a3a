-- ===== src/Admin.antt =====
-- internal/admin: the administrator's edits of the policy file.
pub mod Layout
pub mod Samples
pub mod Errors
pub mod Files
pub mod Editor
pub mod Operations
pub mod ArtifactFiles
pub mod Recovery
pub mod Removal
pub mod Audited
pub mod MutationLog
pub mod Access
pub mod PathCheck
