-- ===== src/FileSystem.antt =====
-- include/limine_manager/infrastructure/filesystem.hpp: what the file system answers while one
-- operation runs. A call that throws is an error.
use limine_manager.Prelude.{Bool, Text, Result}
use limine_manager.FilePath.{FilePath}

pub record FileSystem : Type 0 where
  pub exists : FilePath → Bool
  pub is_directory : FilePath → Bool
  pub readable : FilePath → Bool
  pub read_text : FilePath → Result Text
  pub canonical : FilePath → Result FilePath
