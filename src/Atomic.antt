-- ===== src/Atomic.antt =====
-- Source/Headers/RegexKit/RegexKitPrivateAtomic.h: the atomic operations, as each platform's block
-- of the header builds them from the operations of the platform. An operation is a program of
-- accesses to one shared cell; other threads may run between two accesses. A cell of `w` bits holds
-- a number below `2 ^ w`, and a `BOOL` or `int` result is a number.
pub mod Programs
pub mod Platforms
pub mod Contracts
pub mod Agreement
pub mod Races
