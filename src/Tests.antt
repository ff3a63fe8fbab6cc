-- ===== src/Tests.antt =====
-- Concrete inputs, and the theorems at them.
pub mod Example
pub mod Storing
pub mod Retrying
pub mod Serving
pub mod Guarding
pub mod Auditing
pub mod Sending
pub mod Generating
pub mod Stopping
pub mod Routing
pub mod Configuring
pub mod Tooling
pub mod Metering
pub mod Starting
pub mod Launching
pub mod Hanging
pub mod Gathering
pub mod Racing
pub mod Closing
pub mod Listening
