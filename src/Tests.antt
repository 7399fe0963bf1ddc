-- ===== src/Tests.antt =====
-- Runs of the definitions on small inputs, and applications of the theorems to them.
mod Instances
mod Calls
mod Chains
mod Worker
mod Logs
mod Transactions
mod Graphs
mod Prices
mod Stores
mod Genesis
mod Numbers
mod Calculator
mod Services
mod Refreshed
