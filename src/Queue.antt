-- ===== src/Queue.antt =====
-- engine/queue.go: group commit. `Turns` has the queue of one branch and the steps that its callers
-- take under Database.qmu; `Order`, `Sound`, `Weights`, `Progress` and `Emptied` are about it. `Publish` has the calls that a
-- batch's publication makes for one member, `Attempt` the batch's; `Ways`, `Alone`, `Allowed`, `Asked`, `Authority`, `Landed`,
-- `Settled`, `Counts` and `Writes` are about them.
pub mod Turns
pub mod Order
pub mod Sound
pub mod Weights
pub mod Progress
pub mod Emptied
pub mod Publish
pub mod Attempt
pub mod Ways
pub mod Alone
pub mod Allowed
pub mod Asked
pub mod Authority
pub mod Landed
pub mod Settled
pub mod Counts
pub mod Writes
mod Batches
mod Samples
