-- ===== src/Input.antt =====
-- include/dui/input.hpp and src/input.cpp: text, gestures and focus.
pub mod Utf8
pub mod Arena
pub mod Focus
