-- ===== src/Plugin.antt =====
-- server/device/plugin_loader.c and plugin_registry.h, plugin_registry.c: shared libraries and the
-- functions found in them.
pub mod Held
pub mod Loader
pub mod Registry
