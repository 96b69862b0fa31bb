-- ===== src/Tests.antt =====
-- The theorems at concrete inputs, and runs of the code that the source shows by hand.
mod UnicodeRuns
mod CopyRuns
mod CacheRuns
mod CollectionRuns
mod ErrorRuns
mod ApplyRuns
mod RegexRuns
mod EnumeratorRuns
mod NameRuns
mod AdditionsRuns
mod AtomicRuns
mod MemoryRuns
mod LockRuns
mod InterfaceRuns
mod SortedRuns
mod OptionRuns
