-- ===== src/Tests.antt =====
-- Concrete inputs: the theorems at work on them, and tests of the definitions.
mod Samples
mod Storages
mod Services
mod Ciphers
mod Webs
mod Agents
mod Handlers
mod Exchanges
mod Calls
mod Databases
mod Starts
mod Pointers
mod Syntax
mod Running
