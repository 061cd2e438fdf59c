-- ===== src/Grants.antt =====
-- engine/grants.go: an Authorizer of per-principal grants and protected branches.
-- A Go error is an Option: `none` is nil, and `some` names the refusal. `object.ValidPath` is the
-- storage core's, so it is a parameter. A kind that `split` returns as text is a constructor of
-- `Kind`, the text "" being `nothing`. The mutex is left out: every call holds it throughout.
mod Bits
pub mod Model
pub mod Effects
pub mod Accepted
pub mod Validity
mod Resources
mod Answers
pub mod Questions
mod Samples
