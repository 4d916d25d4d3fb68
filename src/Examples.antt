-- ===== src/Examples.antt =====
-- Tests on a small device, and the theorems at concrete inputs.
mod Threads
mod World
mod Names
mod Commands
mod Caching
mod Listings
mod Handlers
mod Requests
mod Pushes
