-- ===== src/Tests.antt =====
-- The theorems at concrete inputs.
mod Core
mod Headers
mod Streams
mod Chunks
mod Sessions
mod Control
mod State
mod Plans
mod Deploy
mod Nodes
mod Relays
mod Accounts
