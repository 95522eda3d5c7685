-- ===== src/Examples.antt =====
-- Runs of the model at concrete inputs, and instances of the theorems.
pub mod Runs
pub mod Options
pub mod Storage
pub mod Schedulers
pub mod Protocol
pub mod Games
pub mod Parsing
pub mod Plays
pub mod Lists
pub mod MutexRuns
pub mod Strings
pub mod Sessions
pub mod Announcements
pub mod Printing
pub mod Servers
pub mod Clients
pub mod SemaphoreRuns
