-- ===== src/Config.antt =====
-- src/config: the configuration file and the themes.
pub mod Themes
pub mod Values
pub mod Assign
pub mod Rules
pub mod Loader
