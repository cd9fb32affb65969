-- ===== src/Tests.antt =====
-- Runs of the model on concrete inputs, and an instance of each theorem.
mod Machines
mod Simulated
mod Rollback
mod Cmdline
mod Menu
mod Services
mod FileTree
mod Files
mod SecureBoot
mod Housekeeping
