-- ===== src/Cache.antt =====
-- source/cache.c: the caches for bitmaps, glyphs, text, the desktop, cursors and brushes. A handle of
-- the user interface is a number, and NULL is `none`.
pub mod Bitmap
pub mod Chain
pub mod Recency
pub mod Bump
pub mod Put
pub mod Refine
pub mod Desktop
pub mod Tables
mod Tests
