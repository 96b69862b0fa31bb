-- ===== src/Atomic/Agreement.antt =====
-- Run alone, the operations of every platform do what the library expects.
