-- ===== src/Files/Ending.antt =====
-- The loops over ::read and ::write end: what they throw is what a call threw.
use limine_manager.FilePath.{FilePath}
use limine_manager.Posix.{Posix}
