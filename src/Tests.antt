-- ===== src/Tests.antt =====
-- Runs of the model on concrete inputs, and the theorems applied to them.
mod Fixtures
mod Resources
mod Auth
mod Backends
mod Drivers
mod Queues
mod Identity
mod Databases
mod Documents
mod Scrapes
mod Sessions
mod Daemons
mod Runs
mod Sockets
mod Openings
