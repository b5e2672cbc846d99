-- ===== src/Prelude/Calls.antt =====
-- What a call of Python gives back: a value, or an exception, and what it leaves of the state either way.
pub data Called (A : Type 0) : Type 0 where
  returned : A → Called A
  os_error : Called A  -- OSError
  other_error : Called A

pub record Started (A : Type 0) : Type 0 where
  pub after : A
  pub result : Called Unit
