-- ===== src/Tests.antt =====
-- Runs of the models at concrete inputs, and the theorems at concrete inputs.
mod Wear
mod Handoff
mod Config
mod Connection
mod Monitor
mod State
mod Ble
mod Aap
mod Media
mod Pairs
mod Route
mod Tracker
