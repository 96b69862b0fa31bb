-- ===== src/Expansion.antt =====
-- Source/NSString.m, from `RKStringByMatchingAndExpanding` on: reference strings such as "$1-\U$2"
-- are compiled to instructions, the instructions are applied to the ranges of a match, and the
-- pieces that result are copied to one string.
pub mod Buffer
pub mod Copy
pub mod Apply
