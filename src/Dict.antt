-- ===== src/Dict.antt =====
-- src/grapec/dict.py: durations as the text of proto3 JSON.
pub mod Durations
