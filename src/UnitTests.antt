-- ===== src/UnitTests.antt =====
-- The tests of the source files, as Boolean functions on the definitions that model what they call.
mod Support
mod Escaping
mod Modes
mod Lines
mod Proptests
mod Caching
mod Options
mod Double
mod Listings
mod Mutations
mod Filesystem
