-- ===== src/Server.antt =====
-- server.c and server_util.c.
pub mod World
pub mod State
pub mod Send
pub mod Connect
pub mod Command
pub mod Main
pub mod Startup
pub mod Exchange
pub mod Replay
pub mod After
pub mod Registry
pub mod Identities
pub mod Store
pub mod Forward
pub mod Runs
pub mod Lost
pub mod Unsubscribe
pub mod Shutdown
pub mod Subscriptions
pub mod Prefix
pub mod Matching
pub mod Deliver
pub mod Admission
pub mod Sane
pub mod Healthy
pub mod Reach
pub mod HealthyRuns
pub mod Within
pub mod Settled
pub mod Bounded
pub mod Passes
pub mod Exit
pub mod Descriptors
pub mod Steady
pub mod Covered
pub mod CoveredCommands
pub mod CoveredRuns
