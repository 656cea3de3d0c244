-- ===== src/Base/Fallible.antt =====
-- `Result<A, E>`, with the error type first.
use mathlib.Core.Path.{◌≡◌, refl}
use mathlib.Core.Bool.{Bool, true, false}
use medius.Base.Tests.{if◌then◌else◌}

pub data Result (E : Type 0) (A : Type 0) : Type 0 where
  ok : A → Result E A
  err : E → Result E A

infixl 5 ◌>>=◌
abbrev pub ◌>>=◌ : {E A B : Type 0} → Result E A → (A → Result E B) → Result E B
ok a >>= f = f a
err e >>= f = err e

-- What a chain that succeeds went through.
pub chain-ok :
    {E A B : Type 0} (r : Result E A) (k : A → Result E B) (b : B)
    → elim r [ err e ↦ err e | ok a ↦ k a ] ≡ ok b
    → (a : A) × (r ≡ ok a) × (k a ≡ ok b)
chain-ok (ok a) k b h = (a, refl, h)
chain-ok (err e) k b h = absurd (cc h)

pub check-ok :
    {E A : Type 0} (t : Bool) (e : E) (m : Result E A) (a : A)
    → (if t then err e else m) ≡ ok a
    → (t ≡ false) × (m ≡ ok a)
check-ok true e m a h = absurd (cc h)
check-ok false e m a h = (refl, h)
