-- ===== src/Demo.antt =====
-- examples/: the demo of a button that one client at a time owns. `DemoChannel` of
-- examples/common/src/lib.rs and the server of examples/server/src/main.rs.
pub mod Server
pub mod Owner
pub mod Client
pub mod Select
pub mod Told
mod Examples
mod Pressing
use bevy_simplenet.Common.{ℕ, Option}

-- `DemoServerMsg` and `DemoClientRequest`; the other three types of the channel are `()`.
pub data DemoServerMsg : Type 0 where
  current : Option ℕ → DemoServerMsg

pub data DemoClientRequest : Type 0 where
  select : DemoClientRequest
