-- ===== src/Base/Results.antt =====
-- What a call of the library does: it returns a value, raises an Objective-C exception, or, in a
-- model whose loops run on fuel, does not end within its fuel.

-- The exceptions that the modelled code raises, by the name that is passed to `rkException:`.
pub data Exception : Type 0 where
  invalid_argument : Exception  -- NSInvalidArgumentException
  range_exception : Exception  -- NSRangeException
  internal_inconsistency : Exception  -- NSInternalInconsistencyException
  malloc_exception : Exception  -- NSMallocException
  capture_reference : Exception  -- RKRegexCaptureReferenceException
  regex_syntax : Exception  -- RKRegexSyntaxErrorException
  bad_access : Exception  -- not an exception: memory is read that is not the object's own
  locking : Exception  -- RKLockingException, RKConditionLockException

pub data Outcome {ℓ} (A : Type ℓ) : Type ℓ where
  ok : A → Outcome A
  raise : Exception → Outcome A
  out_of_fuel : Outcome A

infixl 5 ◌>>=◌
abbrev pub ◌>>=◌ {ℓ κ} : {A : Type ℓ} {B : Type κ} → Outcome A → (A → Outcome B) → Outcome B
ok a >>= f = f a
raise e >>= f = raise e
out_of_fuel >>= f = out_of_fuel
