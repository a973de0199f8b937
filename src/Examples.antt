-- ===== src/Examples.antt =====
-- Concrete inputs on which the theorems about the program are applied.
pub mod Streaming
pub mod Prompting
pub mod Draining
pub mod Supervising
pub mod Proxying
pub mod Piping
pub mod Storing
pub mod Reading
pub mod Printing
pub mod Relaying
pub mod Connecting
pub mod Uploading
pub mod Requesting
pub mod Answering
pub mod Logging
pub mod Setting
pub mod Stopping
pub mod Finding
pub mod Listing
