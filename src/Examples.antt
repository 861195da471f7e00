-- ===== src/Examples.antt =====
-- The theorems at concrete inputs, and runs of the definitions.
mod Plans
mod Ledgers
mod Teams
mod Resumes
mod Quotas
mod Batched
mod Caches
mod Routes
mod Texts
mod Reviews
mod Packed
mod Approved
mod Scans
mod Events
mod Outputs
mod Tiers
mod Cheap
mod Histories
mod Lifecycles
mod Turns
mod Waves
