-- ===== src/IntervalMap/Unknown.antt =====
-- The arithmetic on offsets has no neighbours of the unknown offset, so an interval that starts there
-- cannot be split off.
