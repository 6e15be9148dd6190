-- ===== src/Tests.antt =====
-- Runs of the model on small inputs, and the theorems at concrete inputs.
mod Fixtures
mod Lifecycles
mod Runtimes
mod Histories
mod Coordinations
mod Predicates
mod Passes
mod Stores
mod Servers
mod Consumers
mod Transactions
mod Submissions
mod Policies
mod Deliveries
