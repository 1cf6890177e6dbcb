-- ===== src/Common/Exceptions.antt =====
-- A C++ exception as a result of its own, with its text.
use Prim.Native.String.{String}

pub data Thrown {ℓ} (A : Type ℓ) : Type ℓ where
  ok : A → Thrown A
  throw : String → Thrown A

-- What follows does not run after an exception.
abbrev pub caught {ℓ} : {A B : Type ℓ} → (A → Thrown B) → Thrown A → Thrown B
caught f (ok a) = f a
caught f (throw why) = throw why
