-- ===== src/Base/Loop.antt =====
-- The shapes of the source's loops over the object that they change: `while let Some(x) = poll()`,
-- the same with `?` in its body, and `for x in xs` with `?`. A loop has fuel, and each has a rule.
use Prim.Native.Nat.{ℕ, zero, suc, ◌<◌}
use mathlib.Core.Path.{◌≡◌, refl, subst}
use mathlib.Core.Bool.{Bool, true, false}
use mathlib.Core.Option.{Option, none, some}
use mathlib.Core.List.{List, [], ◌∷◌}
use native.Mathlib.Omega.{arith}
use rtc_tunnel.Base.Tests.{if◌then◌else◌}
use rtc_tunnel.Base.Outcomes.{Result, ok, err, Outcome, done, fail, after, ◌>>=◌, ◌>>◌}

-- How an object may change: a relation that holds of no change and of two changes in a row.
pub record IsPreorder {S : Type 0} (R : S → S → Type 0) : Type 0 where
  pub stay : (s : S) → R s s
  pub go_on : (a b c : S) → R a b → R b c → R a c

module _ {S : Type 0} where
  unfoldable pub while_some : (S → Option S) → ℕ → S → S
  while_some step zero s = s
  while_some step (suc fuel) s = elim (step s) [ none ↦ s | some s' ↦ while_some step fuel s' ]

  -- `while let Some(x) = poll()? { body }`: the step says whether the loop goes on.
  unfoldable pub while_ok : {E : Type 0} → (S → Outcome E S Bool) → ℕ → S → Outcome E S (Unit {0})
  while_ok step zero s = done tt s
  while_ok step (suc fuel) s = elim (step s) [
    | fail e s' ↦ fail e s'
    | done false s' ↦ done tt s'
    | done true s' ↦ while_ok step fuel s'
  ]

  unfoldable pub for_each :
      {E X : Type 0} → (X → S → Outcome E S (Unit {0})) → List X → S → Outcome E S (Unit {0})
  for_each body [] s = done tt s
  for_each body (x ∷ xs) s = body x s >> for_each body xs

-- The body of a poll loop, run on what the poll yields.
abbrev pub polled : {X A S : Type 0} → Option (X × A) → (X → A → S) → Option S
polled none body = none
polled (some (x, a)) body = some (body x a)

pub polled_holds :
    {X A S : Type 0} (Holds : S → Type 0) (o : Option (X × A)) {body : X → A → S}
    → ((x : X) (a : A) → o ≡ some (x, a) → Holds (body x a))
    → (s' : S) → polled o body ≡ some s'
    → Holds s'
polled_holds Holds none h s' e = cc
polled_holds Holds (some (x, a)) {body} h s' e =
    let q : body x a ≡ s' = cc in subst Holds q (h x a refl)

pub polled-eq-none :
    {X A S : Type 0} (o : Option (X × A)) (body : X → A → S) → polled o body ≡ none → o ≡ none
polled-eq-none none body e = refl
polled-eq-none (some _) body e = cc

-- What holds of both results of a test, or of both cases of an option, holds of the whole.
module _ {B : Type 0} (Holds : B → Type 0) where
  pub if_holds :
      (b : Bool) {x y : B}
      → (b ≡ true → Holds x)
      → (b ≡ false → Holds y)
      → Holds (if b then x else y)
  if_holds true hx hy = hx refl
  if_holds false hx hy = hy refl

  pub option_holds :
      {A : Type 0} (o : Option A) {x : B} {k : A → B}
      → (o ≡ none → Holds x)
      → ((a : A) → o ≡ some a → Holds (k a))
      → Holds (elim o [ none ↦ x | some a ↦ k a ])
  option_holds none hx hk = hx refl
  option_holds (some a) hx hk = hk a refl

  pub result_holds :
      {E A : Type 0} (r : Result E A) {h : E → B} {k : A → B}
      → ((e : E) → r ≡ err e → Holds (h e))
      → ((a : A) → r ≡ ok a → Holds (k a))
      → Holds (elim r [ err e ↦ h e | ok a ↦ k a ])
  result_holds (err e) hh hk = hh e refl
  result_holds (ok a) hh hk = hk a refl

module _ {S : Type 0} {R : S → S → Type 0} (pre : IsPreorder R) where
  some_step :
      (o : Option S) (s : S) (k : S → S)
      → ((s' : S) → o ≡ some s' → R s s')
      → ((s' : S) → R s' (k s'))
      → R s (elim o [ none ↦ s | some s' ↦ k s' ])
  some_step none s k h hk = pre.stay s
  some_step (some s') s k h hk = pre.go_on s s' (k s') (h s' refl) (hk s')

  pub while_some_keeps :
      (step : S → Option S)
      → ((s s' : S) → step s ≡ some s' → R s s')
      → (fuel : ℕ) (s : S) → R s (while_some step fuel s)
  unfolding while_some
  while_some_keeps step h zero s = pre.stay s
  while_some_keeps step h (suc fuel) s =
      some_step (step s) s (while_some step fuel) (h s) (while_some_keeps step h fuel)

  pub bind_keeps :
      {E A B : Type 0} (s : S) (m : Outcome E S A) (k : A → S → Outcome E S B)
      → R s (after m)
      → ((a : A) (s' : S) → R s' (after (k a s')))
      → R s (after (m >>= k))
  bind_keeps s (done a s') k h hk = pre.go_on s s' (after (k a s')) h (hk a s')
  bind_keeps s (fail e s') k h hk = h

  pub then_keeps :
      {E A B : Type 0} (s : S) (m : Outcome E S A) (k : S → Outcome E S B)
      → R s (after m)
      → ((s' : S) → R s' (after (k s')))
      → R s (after (m >> k))
  then_keeps s (done a s') k h hk = pre.go_on s s' (after (k s')) h (hk s')
  then_keeps s (fail e s') k h hk = h

  ok_step :
      {E : Type 0} (o : Outcome E S Bool) (s : S) (k : S → Outcome E S (Unit {0}))
      → R s (after o)
      → ((s' : S) → R s' (after (k s')))
      → R s (
          after
            (elim o [ fail e s' ↦ fail e s' | done false s' ↦ done tt s' | done true s' ↦ k s' ]))
  ok_step (fail e s') s k h hk = h
  ok_step (done false s') s k h hk = h
  ok_step (done true s') s k h hk = pre.go_on s s' (after (k s')) h (hk s')

  pub while_ok_keeps :
      {E : Type 0} (step : S → Outcome E S Bool)
      → ((s : S) → R s (after (step s)))
      → (fuel : ℕ) (s : S) → R s (after (while_ok step fuel s))
  unfolding while_ok
  while_ok_keeps step h zero s = pre.stay s
  while_ok_keeps step h (suc fuel) s =
      ok_step (step s) s (while_ok step fuel) (h s) (while_ok_keeps step h fuel)

  pub for_each_keeps :
      {E X : Type 0} (body : X → S → Outcome E S (Unit {0}))
      → ((x : X) (s : S) → R s (after (body x s)))
      → (xs : List X) (s : S) → R s (after (for_each body xs s))
  unfolding for_each
  for_each_keeps body h [] s = pre.stay s
  for_each_keeps body h (x ∷ xs) s =
      then_keeps s (body x s) (for_each body xs) (h x s) (for_each_keeps body h xs)

module _ {S : Type 0} (step : S → Option S) (measure : S → ℕ)
    (falls : (s s' : S) → step s ≡ some s' → measure s' < measure s) where
  -- With a measure below the fuel the loop ends because there is nothing left.
  pub while_some-none : (fuel : ℕ) (s : S) → measure s < fuel → step (while_some step fuel s) ≡ none
  unfolding while_some
  while_some-none zero s h = elim h [ ]
  while_some-none (suc fuel) s h = go (while_some-none fuel) (step s) refl
    where
      go :
          ((s' : S) → measure s' < fuel → step (while_some step fuel s') ≡ none)
          → (o : Option S) → step s ≡ o
          → step (elim o [ none ↦ s | some s' ↦ while_some step fuel s' ]) ≡ none
      go ih none e = e
      go ih (some s') e = ih s' (omega (arith, falls s s' e))
