-- ===== src/Rollback.antt =====
-- Rollback to a snapshot: planning (src/application/rollback_planner.cpp) and execution
-- (src/application/rollback_service.cpp).
pub mod Naming
pub mod Planner
pub mod Client
pub mod Service
