-- ===== src/Lib.antt =====
-- A verification library of limine-manager, the C++ sources under src/ and include/.
--
-- The program generates limine.conf, the menu of the Limine boot loader, from the kernels that are
-- installed and the Btrfs snapshots that Snapper keeps, and rolls the main root back to the snapshot
-- that is booted. The detectors of src/infrastructure fill the records of Model.antt, the services of
-- src/application decide and act on them, and src/domain holds the types they share.
--
-- Files. Prelude.antt and its children: lists, bytes, exceptions as values (`Result`, with the C++
-- class that is thrown). Exec.antt: code that changes a state and may throw, where a throw keeps the
-- changes made before it. FilePath.antt and Decimal.antt: what std::filesystem::path, std::to_string
-- and std::stoul do with texts. Model.antt: the structs of include/limine_manager. Then, one module
-- for each component:
--   Domain/KernelCmdline.antt   src/domain/kernel_cmdline.cpp: parse, render, value, values, set, erase
--   Domain/Rollback.antt        src/domain/rollback.cpp and its header
--   Rollback/Naming.antt        the text functions of src/application/rollback_planner.cpp
--   Rollback/Planner.antt       RollbackPlanner::build, one function for each of its steps
--   Rollback/Client.antt        the interface BtrfsClient, with the laws of the calls it makes
--   Rollback/Service.antt       RollbackService::execute, its try block and its catch block
--   FileSystem.antt             include/limine_manager/infrastructure/filesystem.hpp, an interface
--   Domain/Validation.antt      src/domain/validation.cpp
--   Validation.antt             src/application/validation_service.cpp, with a child for each group of
--                               checks: Devices, SecureBoot, Machine, Kernels, Arguments, Snapshots
--   Config/Themes.antt          src/config/theme.cpp
--   Config/*.antt               src/config/config_loader.cpp: Values (the parsers), Assign, Rules
--                               (validate_config), Loader (load)
--   Changes.antt                src/application/change_planner.cpp
--   Changes/Diff.antt           src/render/unified_diff_renderer.cpp
--   Menu.antt                   src/domain/menu.cpp
--   Menu/Selection.antt         include/limine_manager/application/snapshot_selector.hpp
--   Menu/Preview.antt           src/application/preview_service.cpp; Menu/Booting.antt and
--                               Menu/Complete.antt relate it to the planner and to the renderer
--   Menu/Limine.antt            src/render/limine_renderer.cpp
--   Posix.antt                  the system calls, an interface with laws
--   Files.antt                  src/infrastructure/secure_file_ops.cpp; its children prove what the
--                               loops (Transfer, Ending) and the three operations (Copy, CopyFile,
--                               Restore, Remove) do
--   Apply.antt                  src/application/apply_service.cpp; its children follow `apply`:
--                               Lock, Checks, Staging, Rollback, Recovery, Replacing, Atomicity
--   SecureBoot.antt             src/application/secure_boot_apply_service.cpp (Service),
--                               src/application/secure_boot_transaction.cpp (Transaction),
--                               src/infrastructure/efi_image_transaction.cpp (EfiImage) and
--                               src/infrastructure/secure_boot_tools.cpp (Tools)
--   Snapper.antt                src/infrastructure/snapper_client.cpp
--   Backups.antt                src/application/backup_service.cpp
--   Refresh.antt                src/application/refresh_service.cpp: it composes the validation, the
--                               menu, the planner, the protected apply and the pruning
--   Automation.antt             src/application/automation.cpp
--   Tests.antt                  runs at concrete inputs; a Btrfs client and a file tree in memory
--
-- Bounds. Numbers are natural numbers; `std::size_t` and `unsigned long` wrap at 2^64 where the source
-- can pass that bound (Decimal.antt, Rollback/Naming.antt). Decimal digits are produced on fuel: one
-- more than the number, which is at least its count of digits. The loop of the diff runs on fuel: the
-- number of lines of both texts, of which each step writes at least one. The loops over ::read and
-- ::write run on the bytes that are left and a bound of the interruptions to come.
--
-- Outside the model: processes and the clock, the detectors and src/main.cpp, which the modelled
-- parts meet only through the records of Model.antt. The system calls are an interface. Its laws:
-- a call that fails changes no file; chown(2) sets the owner and leaves of the mode what a
-- parameter says, all of it where no set-ID bit is set; the law of rename(2) is for a source that
-- is no directory. Where the fuel of a loop over ::read and ::write runs out, the source still
-- runs; that they end is a theorem under a separate assumption (MakesProgress). The process runner
-- is a parameter. What is durable after a crash is not modelled: ::fsync changes no file. The
-- Btrfs client is an interface whose laws follow mount(8), rename(2) and `btrfs subvolume
-- snapshot`: a call that throws changes no subvolume, and nothing is said of the paths inside a
-- directory that is renamed, so the theorems on the rollback are for paths that are not nested:
-- @snapshots beside @, not @/.snapshots. The rollback lock and the transaction id are inputs, and
-- std::filesystem::relative is a parameter. The sorts of the standard library are insertion sorts.
-- Paths are compared as texts.
pub mod Prelude
pub mod FilePath
pub mod Decimal
pub mod FileSystem
pub mod Model
pub mod Exec
pub mod Domain
pub mod Rollback
pub mod Validation
pub mod Config
pub mod Changes
pub mod Menu
pub mod Posix
pub mod Files
pub mod Apply
pub mod SecureBoot
pub mod Snapper
pub mod Backups
pub mod Refresh
pub mod Automation
mod Tests
