-- ===== src/Aoi.antt =====
-- logic_work/aoi_nine: the map of screens and their neighbours.
pub mod NineMap
mod Tests
