-- ===== src/System.antt =====
-- The programs together: what one writes is what the next one reads.
pub mod Report
pub mod RoundTrip
pub mod Cloud
pub mod Delivery
pub mod City
pub mod Dialogue
pub mod Session
pub mod Sizes
pub mod Reconnect
pub mod Echo
mod Tests
mod DialogueTests
mod EchoTests
mod SizesTests
mod ReconnectTests
