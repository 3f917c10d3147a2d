-- ===== src/Raster.antt =====
-- include/dui/backend.hpp and src/backend.cpp: frames of a surface, their acquisition, and the
-- thread that renders into them.
pub mod Frame
pub mod Acquire
pub mod Thread
pub mod Draw
