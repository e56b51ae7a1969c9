-- ===== src/Presets.antt =====
-- preset_cal/main.go: the presets that apply to a resource in a namespace.
pub mod Types
pub mod Bundle
pub mod Load
pub mod Merge
