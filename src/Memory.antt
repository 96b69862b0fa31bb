-- ===== src/Memory.antt =====
-- Source/Headers/RegexKit/RegexKitPrivateMemory.h: the macros that allocate, free and retain, in
-- the build for a garbage collector, where the variable `RKRegexGarbageCollect` decides, and in the
-- build without. The allocators are parameters by what they answer: the address of the new block.
pub mod Macros
pub mod Pairing
