-- ===== src/Tests.antt =====
-- Runs of the model at concrete inputs.
mod Protocol
mod Accounts
mod Packs
mod Chat
mod Calls
mod Rounds
mod Older
mod Writing
mod Ordering
mod Talk
mod Console
mod Start
