-- ===== src/Tests.antt =====
-- Runs at concrete inputs, and the theorems applied where their hypotheses hold.
mod Requests
mod Ids
mod Prepared
mod Batch
mod Inbound
mod V2
mod Dispatch
mod Versions
mod Schema
