-- ===== src/Lib.antt =====
-- Verification of RegexKit, an Objective-C framework around the PCRE library (Source/).
--
-- RegexKit compiles and caches regular expressions (RKRegex, RKCache), runs them over the UTF-8 bytes
-- of strings and converts the resulting byte ranges to the UTF-16 ranges of Foundation (RKUnicode),
-- expands reference strings such as "$1-\U$2" into replacements (NSString), and adds methods that
-- match their elements to the collections of Foundation (NSArray, NSSet, NSDictionary). The library
-- models these parts:
--
-- Base        lists measured by native numbers, Boolean tests, and the results of calls that may raise.
-- Foundation  NSRange, string buffers and the width of machine words, for a 64-bit system.
-- Unicode     Source/RKUnicode.m. RKRangeForUTF8CharacterAtLocation,
--             RKConvertUTF8ToUTF16RangeForStringBuffer and RKConvertUTF16ToUTF8RangeForStringBuffer,
--             with the tables that they read. Unicode/Text is the specification: code points with
--             their two encodings.
-- Expansion   Source/NSString.m. Expansion/Copy has the buffer of pieces (RKAppendCopyInstruction,
--             RKEvaluateCopyInstructions, RKStringFromCopyInstructionsX); Expansion/Buffer the array
--             that moves from the stack to the heap (the string is that of the build with
--             CoreFoundation, which ends it at the first NUL); Expansion/Apply the loop that applies compiled
--             instructions to a match (RKApplyReferenceInstructions), over the interface of
--             Expansion/Apply/Sink for the buffer. Expansion/Apply/Meaning is its specification.
-- Cache       Source/RKCache.m: clearCache, init, RKFastCacheLookup, addObjectToCache:withHash:,
--             removeObjectWithHash:, cacheCount and the switches, over the interface of
--             Cache/Interface for the map table of Foundation, with the garbage collector on or off. Cache/History and Cache/Counters are
--             about sequences of calls.
--             Cache/Header is the interface that Source/Headers/RegexKit/RKCache.h documents.
-- Collections Source/NSArray.m, Source/NSSet.m and Source/NSDictionary.m: RKDoArrayAction,
--             RKDoSetAction, RKDoDictionaryAction and the methods that call them. The files named
--             Interface are what Source/Headers/RegexKit/NSArray.h, NSSet.h and NSDictionary.h
--             document. Collections/Matching has the plain functions that the results are compared
--             with.
-- Lock        Source/RKLock.m and Source/Headers/RegexKit/RKLock.h: Lock/Mutex the mutex functions,
--             Lock/ReadWrite RKFastReadWriteLockWithStrategy, Lock/Condition RKFastConditionLock,
--             RKFastConditionUnlock and the methods of RKConditionLock.
-- Atomic      Source/Headers/RegexKit/RegexKitPrivateAtomic.h: the atomic operations of four platforms,
--             as programs of accesses to a cell, and the interleaving of two of them.
-- Memory      Source/Headers/RegexKit/RegexKitPrivateMemory.h: the macros that allocate, free and
--             retain, with and without a garbage collector.
-- RangeMacros the macros of Source/Headers/RegexKit/RegexKitPrivate.h.
-- StackGuard  Source/RK_stack_chk.c: the set-up of the stack guard.
-- Regex       Source/RKRegex.m: getRanges:count:withCharacters:length:inRange:options:error:, which
--             turns the pairs of 32-bit integers that pcre writes into ranges in the same memory.
--             Regex/Cells is about that memory, Regex/Conversion about the loops.
--             Regex/Names is the search of a capture name in the table that pcre makes
--             (RKCaptureIndexForCaptureNameCharactersWithError), Regex/NameSearch is about it.
--             Regex/CaptureNames has the choice among the entries of a name and the methods for
--             capture names, and Regex/Matching the public matching methods. Regex/NamesHeader
--             and Regex/Header are what Source/Headers/RegexKit/RKRegex.h documents of them.
-- Enumerator  Source/RKEnumerator.m: initWithRegex:string:inRange:error:, _updateToNextMatch,
--             releaseAllResources and the next and current methods by capture number, over the
--             interface of Enumerator/Answers for the regex and with the conversions of Unicode.
-- Additions   the regex for an argument (RKRegexFromStringOrRegex in Source/RKRegex.m), over the cache
--             and the compiler of regexes as parameters; Additions/Data Source/NSData.m; and
--             Additions/Strings the methods of Source/NSString.m for matches and ranges. The files
--             named Header are what Source/Headers/RegexKit/NSData.h and NSString.h document.
--             Additions/Pieces relates ranges of bytes and of code units of a text. Additions/Objects
--             is Source/NSObject.m, over Sorted, with the methods of NSObject.h.
-- Sorted      Source/RKSortedRegexCollection.m: an element of a collection is its index.
--             threadMatchEntryFunction is a step relation on the state that the threads of a search
--             share, one access a step (Sorted, Sorted/Threads); Sorted/Matching has
--             regexMatching:lowestIndexInCollection: with its cache of missed objects, its hits and
--             its sort, and Sorted/Making the initialiser. Sorted/Soundness is about every
--             interleaving, Sorted/Searching and Sorted/Alone about a thread alone.
-- ErrorCodes  Source/RKUtility.m and Source/Headers/RegexKit/RegexKitTypes.h: the codes of compile
--             errors and the two functions that name them. ErrorCodes/MatchErrors are the codes
--             of a match with their two functions.
-- Options     the options of Source/Headers/RegexKit/RegexKitTypes.h, with the functions of
--             Source/RKUtility.m that give their names (RKArrayFromMatchOption and the others), as
--             words given by their bits.
-- Tests       the theorems at small concrete inputs.
--
-- Loops are structural recursion over the list that they run through, or recursion on fuel: the
-- fuel that the conversions of Unicode are given, the number of bytes or code units up to the end
-- of the range and one, is always enough. A loop that calls nextObject has its fuel as an
-- argument, and a theorem says how much is enough. A thread that searches a collection alone is
-- given six steps for an element and four more, which is enough. Numbers are natural numbers; where
-- the source can wrap, the model writes out the remainder by 2 ^ 64, and a theorem that needs a bound
-- states it. Memory for pieces is a function from addresses to bytes, and whether the allocator gives
-- memory is an argument. The cache takes the answer of its lock call; the locks themselves take the
-- answers of pthreads from a list, one a call, and a list that ends too early is out of fuel: the
-- theorems say which lists are long enough. Where the source reads memory that is not an object's own,
-- the outcome is the exception bad_access of Base/Results.
--
-- Parameters: the regex of the array actions is a test of an object, the case conversions of
-- Foundation, the search of capture names and pcre_exec are functions, and the map table is the record
-- Cache.Interface.MapTable with the laws that its documentation gives. The sets and dictionaries of
-- Foundation are the records SetOf and DictionaryOf of the same kind, the operations of the
-- platforms of Atomic are records with contracts, and the answers of pthreads and of the calls of
-- StackGuard are arguments. The search in a collection takes mergesort as a function that only orders
-- what it is given, the answer of its lock, and the order in which the threads of the pool make their
-- steps.
--
-- Not modelled: pcre itself, the retain counts of objects, the probes, archiving, the unit tests and
-- scripts; the parser of reference strings, the creation of a regex, the creation and destruction of
-- locks, and the thread pool.
pub mod Additions
pub mod Atomic
pub mod Base
pub mod Cache
pub mod Collections
pub mod Enumerator
pub mod ErrorCodes
pub mod Expansion
pub mod Foundation
pub mod Lock
pub mod Memory
pub mod Options
pub mod RangeMacros
pub mod Regex
pub mod Sorted
pub mod StackGuard
pub mod Tests
pub mod Unicode
