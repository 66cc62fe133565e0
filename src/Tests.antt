-- ===== src/Tests.antt =====
-- The theorems at concrete inputs, by component.
pub mod Abandoned
pub mod Decide
pub mod Descriptors
pub mod Wire
pub mod Requirements
pub mod Server
pub mod Sessions
pub mod Listen
pub mod Reachable
pub mod CommandLine
pub mod Mdp
pub mod RemoteCall
pub mod Program
pub mod Connected
pub mod Delayed
pub mod Stored
pub mod Lost
pub mod Sockets
pub mod Client
pub mod Filled
