-- ===== src/Tests.antt =====
-- Sample data and concrete runs of all parts.
mod Samples
mod Runner
mod Calls
mod Socket
mod Cluster
mod Init
mod Overtaken
mod Follows
mod Sync
mod Reports
mod Overlap
mod Auth
mod Security
mod Transform
mod Subclass
