-- ===== src/Client.antt =====
-- The client, src/client: the request signals, the tracker of pending requests, the handler of
-- socket events, the public API, and the runs of them together.
pub mod Signal
pub mod Tracker
pub mod Cells
pub mod Told
pub mod State
pub mod Handler
pub mod Text
pub mod Factory
pub mod Api
pub mod Settle
pub mod Drain
pub mod Effect
pub mod Callbacks
pub mod Operations
pub mod Calls
pub mod Run
pub mod Invariant
pub mod Agreement
pub mod Replies
pub mod Status
pub mod Responded
pub mod Death
pub mod Examples
pub mod Answered
