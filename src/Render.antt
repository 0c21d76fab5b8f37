-- ===== src/Render.antt =====
-- internal/render/render.go: the results of a rendering and how they reach the disk. The templates are
-- data of the repository and their engine is a library's.
pub mod Results
pub mod Writing
