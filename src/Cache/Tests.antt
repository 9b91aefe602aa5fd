-- ===== src/Cache/Tests.antt =====
-- The theorems about the caches at concrete inputs: over callers numbered from 0, over a server that answers null to everything,
-- so that a caller waits until its timeout, and over one that keeps values, locks and scripts.
mod Callers
mod Silent
mod Stored
mod Tiers
mod Instances
