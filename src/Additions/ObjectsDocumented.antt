-- ===== src/Additions/ObjectsDocumented.antt =====
-- The methods of Source/NSObject.m do what the header documents of them.
use regexkit.Base.{[], true, none, length, ◌≡◌, List, ℕ}
use regexkit.Additions.{ok, some, Option, Regexes, Resources}
use regexkit.Additions.Strings
use regexkit.Additions.ObjectsHeader.{DescribedObject}
use regexkit.Additions.Objects.{match_object}
use regexkit.Sorted.{array_collection}
use regexkit.Sorted.Matching.{Sorter, Circumstances}
use regexkit.Sorted.Making.{
  Made, Means, Library, CollectionArgument, CollectionError, sorted_regex_collection_for,
}
use regexkit.Sorted.Right.{IsCollection, IsRecorded, IsTelling, IsSorting}

abbrev pub regexes_of : {R : Type 0} → Option (Made R) → List R
regexes_of none = []
regexes_of (some m) = m.regexes

-- The collection, where there is one, is what the initialiser and earlier calls for any regex leave.
abbrev pub IsReady : {R O : Type 0} → (O → DescribedObject R) → Option (Made R) → Type 0
IsReady objects none = Unit {0}
IsReady objects (some m) =
    IsCollection (length m.regexes) m.state
    × IsRecorded (λ x. match_object m.regexes (objects x)) (length m.regexes) m.state

abbrev pub IsOfArray : {R : Type 0} → Option (Made R) → Type 0
IsOfArray none = Unit {0}
IsOfArray (some m) = m.state.collection_type ≡ array_collection

module _ (W : Regexes) (resources : Resources) (mergesort : Sorter) (at : Circumstances)
    (means : Means W.Regex) where
  open W use {Regex}

  -- One thread searches, the lock is acquired, and hashes tell the objects apart.
  pub record IsServed {O : Type 0} (objects : O → DescribedObject Regex)
      (a : CollectionArgument Regex) (library : Option Library) (option : ℕ)
      (found : Option (Made Regex)) (error : Option CollectionError) : Type 0 where
    pub sorting : IsSorting mergesort
    pub locked : at.locked ≡ true
    pub alone : at.schedule ≡ none
    pub telling : IsTelling (λ x. match_object (regexes_of found) (objects x))
    pub collection : sorted_regex_collection_for W means a library option ≡ ok (found, error)
    pub ready : IsReady objects found
