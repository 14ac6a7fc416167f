-- ===== src/Examples.antt =====
-- Runs of the models on concrete values, and the values at which the theorems apply.
pub mod Data
pub mod Host
pub mod Policy
pub mod State
pub mod Readback
pub mod Issuing
pub mod Identities
pub mod Server
pub mod Ca
pub mod Runtime
