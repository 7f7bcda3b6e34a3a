-- ===== src/Admin/Layout.antt =====
-- internal/admin/policy.go: the edits of the policy's text. The multi-line patterns of the source match
-- whole lines, so that each is a test of one line; a match is the span of its characters.
pub mod Lines
pub mod Edits
mod Examples
