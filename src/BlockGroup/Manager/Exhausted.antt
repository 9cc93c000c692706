-- ===== src/BlockGroup/Manager/Exhausted.antt =====
-- Allocation from a map that has no clear bit.
