-- ===== src/Core.antt =====
-- include/minimosq/core: the views, error codes and fixed-capacity containers of every other part.
pub mod Span
pub mod StaticVector
pub mod Pool
