-- ===== src/Examples.antt =====
-- Concrete inputs: tests of the definitions by evaluation, and the theorems applied to them.
mod Plugins
mod Registries
mod Sessions
mod Queues
mod Storages
mod Delegations
mod Many
mod Scopes
mod Schedulers
mod Streams
mod Webs
mod Runs
mod Loops
mod Guards
mod Letters
