-- ===== src/Checks.antt =====
-- The theorems at concrete inputs, and runs of the model.
mod Serializing
mod Clients
mod Codes
mod Peers
mod Pools
mod Scoring
mod Sites
mod Texts
mod Wallets
mod Words
