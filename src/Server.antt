-- ===== src/Server.antt =====
-- The server, src/server: validation of connection requests, request tokens, the handlers of
-- sessions and of connections, and the public API.
pub mod Counter
pub mod Validation
pub mod Admission
pub mod Token
pub mod Session
pub mod Text
pub mod Factory
mod Handshake
pub mod Api
pub mod Connection
mod Inverse
mod Registry
mod Replies
mod Texts
mod Sessions
pub mod Examples
pub mod Runs
mod Upkeep
mod Order
mod Delivery
mod Arrival
mod Scenario
mod Stamps
pub mod System
mod Clients
mod Handled
mod Routing
mod Duplicate
mod Answers
mod Logs
mod Persistence
pub mod Served
pub mod Conversation
