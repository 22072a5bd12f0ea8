-- ===== src/Examples.antt =====
-- Tests of the definitions, and the theorems at concrete inputs.
mod Demo
mod Validation
mod Jobs
mod Datasets
mod Records
mod Workers
mod Tokens
mod Serving
mod Routes
mod Licenses
