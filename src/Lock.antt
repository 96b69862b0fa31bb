-- ===== src/Lock.antt =====
-- Source/RKLock.m and Source/Headers/RegexKit/RKLock.h: the locks over pthreads. What a call of
-- pthreads answers is taken from a list, one answer a call; a list that ends before the code does
-- is `out_of_fuel`.
pub mod Pthreads
pub mod Mutex
pub mod ReadWrite
pub mod Condition
