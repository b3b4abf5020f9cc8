-- ===== src/Tests.antt =====
-- The theorems applied to concrete inputs.
mod Library
mod Pricing
mod Auth
mod Ingest
mod Worker
mod Stream
mod Evaluator
mod Sdk
mod Api
mod Schema
