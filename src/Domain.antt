-- ===== src/Domain.antt =====
-- The domain types of src/domain.
pub mod KernelCmdline
pub mod Rollback
pub mod Validation
