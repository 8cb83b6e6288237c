-- ===== src/Outcome.antt =====
-- The result of a call that may raise; an exception is its text.
use Prim.Native.String.{String}

pub data Outcome (A : Type 0) : Type 0 where
  ok : A → Outcome A
  raised : String → Outcome A

infixl 5 ◌>>=◌
abbrev pub ◌>>=◌ : {A B : Type 0} → Outcome A → (A → Outcome B) → Outcome B
ok a >>= f = f a
raised e >>= f = raised e
