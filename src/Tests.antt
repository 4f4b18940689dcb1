-- ===== src/Tests.antt =====
-- The theorems at concrete inputs, which meet their conditions.
mod Inputs
mod Create
mod Lifecycle
mod Node
mod Pancli
mod Validators
mod Server
mod Startup
