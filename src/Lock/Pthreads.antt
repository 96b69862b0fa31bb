-- ===== src/Lock/Pthreads.antt =====
-- What the calls of pthreads answer, as the switches of Source/RKLock.m tell the answers apart.
use regexkit.Base.{Bool, true, false}

-- 0, EAGAIN, EBUSY, EDEADLK, ENOMEM, EINVAL, EPERM, ETIMEDOUT, and every other number.
pub data Answer : Type 0 where
  success again busy dead_lock no_memory invalid not_permitted timed_out unknown : Answer

abbrev pub is_success : Answer → Bool
is_success success = true
is_success _ = false

-- Of a call that may block, and of a `try` call.
pub data Kind : Type 0 where
  try_read try_write read write : Kind

-- A call that was made, with its answer.
pub record Call : Type 0 where
  pub kind : Kind
  pub answer : Answer

abbrev pub is_blocking : Kind → Bool
is_blocking try_read = false
is_blocking try_write = false
is_blocking read = true
is_blocking write = true

abbrev pub is_writing : Kind → Bool
is_writing try_read = false
is_writing try_write = true
is_writing read = false
is_writing write = true
