-- ===== src/Collections.antt =====
-- Source/NSArray.m, Source/NSSet.m and Source/NSDictionary.m: what the additions to the collections
-- do with the objects that a regex matches. The matcher is a parameter: whether a regex matches an
-- object is asked of pcre.
pub mod Matching
pub mod ArrayActions
pub mod ArrayInterface
pub mod SetActions
pub mod DictionaryActions
pub mod DictionaryEntries
pub mod DictionaryInterface
pub mod DictionaryDocumented
pub mod SetInterface
pub mod SetDocumented
