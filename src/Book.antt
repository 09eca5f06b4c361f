-- ===== src/Book.antt =====
-- include/lx/book: the order arena, the price levels, the occupancy bitmap and the order book.
pub mod Order
pub mod Pool
pub mod PriceLevel
pub mod LevelBitmap
pub mod OrderHandle
pub mod Matching
pub mod OrderBook
pub mod Examples
