-- ===== src/Tests.antt =====
-- Runs of the models on concrete inputs.
mod Core
mod Runtime
mod Memory
mod Scheduling
mod Bridge
mod Tools
mod Network
