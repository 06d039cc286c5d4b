-- ===== src/Common/Action.antt =====
-- A request handler: it reads and writes the state, and returns or throws. What was written
-- before a throw stays written, except inside a transaction.
use transport_api.Common.{
  Bool, Option, ap, arith, false, inl, inr, none, refl, some, sym, true, ◌≡◌, ◌⊎◌,
}
use mathlib.Core.Path.{◌≡◌, refl, sym, ap}
use mathlib.Core.Logic.{◌⊎◌, inl, inr}
use mathlib.Core.Bool.{Bool, true, false}
use mathlib.Core.Option.{Option, none, some}
use native.Mathlib.Omega.{arith}

-- The error codes of the exceptions that the handlers throw (`ERROR_CODES`).
pub data Error : Type 0 where
  bad_request resource_not_found resource_conflict forbidden domain_rule_violation : Error
  invalid_refresh_token token_reuse_detected account_blocked account_inactive : Error
  unauthorized session_revoked bad_gateway : Error

pub data Result (A : Type 0) : Type 0 where
  ok : A → Result A
  err : Error → Result A

abbrev pub Action : Type 0 → Type 0 → Type 0
Action S A = S → Result A × S

infixl 5 ◌>>=◌ ◌>>◌
abbrev pub ◌>>=◌ : {S A B : Type 0} → Action S A → (A → Action S B) → Action S B
◌>>=◌ m f s = let (r, t) = m s in elim r [ ok a ↦ f a t | err e ↦ (err e, t) ]

abbrev pub ◌>>◌ : {S A B : Type 0} → Action S A → Action S B → Action S B
m >> k = m >>= λ _. k

module _ {S : Type 0} where
  abbrev pub pure : {A : Type 0} → A → Action S A
  pure a s = (ok a, s)

  abbrev pub throw : {A : Type 0} → Error → Action S A
  throw e s = (err e, s)

  abbrev pub throw_if : Bool → Error → Action S (Unit {0})
  throw_if true e s = (err e, s)
  throw_if false e s = (ok tt, s)

  abbrev pub gets : {A : Type 0} → (S → A) → Action S A
  gets f s = (ok (f s), s)

  abbrev pub modify : (S → S) → Action S (Unit {0})
  modify f s = (ok tt, f s)

  abbrev pub or_throw : {A : Type 0} → Option A → Error → Action S A
  or_throw none e s = (err e, s)
  or_throw (some a) e s = (ok a, s)

  -- `prisma.$transaction`: a throw rolls everything back.
  abbrev pub transaction : {A : Type 0} → Action S A → Action S A
  transaction m s = let (r, t) = m s in elim r [ ok a ↦ (ok a, t) | err e ↦ (err e, s) ]

-- To split on the outcome of a call and keep the equation.
pub Outcome-cases :
    {A S : Type 0} (r : Result A × S)
    → ((a : A) × (s : S) × (r ≡ (ok a, s))) ⊎ ((e : Error) × (s : S) × (r ≡ (err e, s)))
Outcome-cases (ok a, s) = inl (a, s, refl)
Outcome-cases (err e, s) = inr (e, s, refl)

pub Result-cases :
    {A : Type 0} (r : Result A) → ((a : A) × (r ≡ ok a)) ⊎ ((e : Error) × (r ≡ err e))
Result-cases (ok a) = inl (a, refl)
Result-cases (err e) = inr (e, refl)

-- What a handler wrote before it threw is nothing.
abbrev pub IsAtomic : {S A : Type 0} → Action S A → Type 0
IsAtomic {S} m = (s t : S) (e : Error) → m s ≡ (err e, t) → t ≡ s

module _ {S A : Type 0} where
  pub transaction-IsAtomic : (m : Action S A) → IsAtomic (transaction m)
  transaction-IsAtomic m s t e failed = elim (Outcome-cases (m s)) [
    | inl (a, u, returned) ↦ grind arith
    | inr (e', u, threw) ↦ grind arith
  ]

  pub guarded-IsAtomic :
      (refused : Bool) (e : Error) (m : Action S A)
      → IsAtomic m
      → IsAtomic (throw_if refused e >> m)
  guarded-IsAtomic true e m atomic s t e' failed = sym (ap (λ r. r.1) failed)
  guarded-IsAtomic false e m atomic s t e' failed = atomic s t e' failed

  pub required-IsAtomic :
      {B : Type 0} (found : Option B) (e : Error) (m : B → Action S A)
      → ((b : B) → IsAtomic (m b))
      → IsAtomic (or_throw found e >>= m)
  required-IsAtomic none e m atomic s t e' failed = sym (ap (λ r. r.1) failed)
  required-IsAtomic (some b) e m atomic s t e' failed = atomic b s t e' failed
