-- ===== src/Base/Outcomes.antt =====
-- Results, and actions on a mutable object that may stop at a `?`. What was written before the
-- early return stays written, so the object comes back beside the error too.
use mathlib.Core.Bool.{Bool, true, false}

pub data Result (E A : Type 0) : Type 0 where
  ok : A → Result E A
  err : E → Result E A

-- `.is_ok()`
abbrev pub is_ok : {E A : Type 0} → Result E A → Bool
is_ok (ok _) = true
is_ok (err _) = false

-- `.map_err(f)`
abbrev pub map_err : {E F A : Type 0} → (E → F) → Result E A → Result F A
map_err f (ok a) = ok a
map_err f (err e) = err (f e)

pub data Outcome (E S A : Type 0) : Type 0 where
  done : A → S → Outcome E S A
  fail : E → S → Outcome E S A

module _ {E S : Type 0} where
  -- The object after the call, whether the call returned or stopped early.
  abbrev pub after : {A : Type 0} → Outcome E S A → S
  after (done a s) = s
  after (fail e s) = s

  abbrev pub outcome : {A : Type 0} → Result E A → S → Outcome E S A
  outcome (ok a) s = done a s
  outcome (err e) s = fail e s

  abbrev pub succeeds : {A : Type 0} → Outcome E S A → Bool
  succeeds (done a s) = true
  succeeds (fail e s) = false

  infixl 5 ◌>>=◌ ◌>>◌
  abbrev pub ◌>>=◌ : {A B : Type 0} → Outcome E S A → (A → S → Outcome E S B) → Outcome E S B
  done a s >>= f = f a s
  fail e s >>= f = fail e s

  -- `m?; k`
  abbrev pub ◌>>◌ : {A B : Type 0} → Outcome E S A → (S → Outcome E S B) → Outcome E S B
  done a s >> k = k s
  fail e s >> k = fail e s
