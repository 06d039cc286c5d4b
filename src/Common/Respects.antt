-- ===== src/Common/Respects.antt =====
-- What a handler does to the state, whether it returns or throws, read off the handler's own
-- writes: a relation that is reflexive and transitive holds from one end to the other.
use transport_api.Common.{Bool, Option, arith, false, inl, inr, none, some, subst, sym, true, ◌≡◌}
use transport_api.Common.Action.{
  Action, Error, Outcome-cases, err, gets, modify, ok, or_throw, pure, throw_if, transaction, ◌>>=◌,
}

pub record StateFrame (S : Type 0) : Type 1 where
  pub Rel : S → S → Type 0
  pub reflexive : (s : S) → Rel s s
  pub transitive : (s t u : S) → Rel s t → Rel t u → Rel s u

module _ {S : Type 0} (F : StateFrame S) where
  pub record Respects {A : Type 0} (m : Action S A) : Type 0 where
    pub holds : (s : S) → F.Rel s (m s).1

  pub bind-Respects :
      {A B : Type 0} (m : Action S A) (k : A → Action S B)
      → Respects m
      → ((a : A) → Respects (k a))
      → Respects (m >>= k)
  bind-Respects m k first rest = record {
    holds = λ s. elim (Outcome-cases (m s)) [
      | inl (a, t, e) ↦
          let goes : (m >>= k) s ≡ k a t = ground arith in
          subst (λ r. F.Rel s r.1) (sym goes)
            (F.transitive s t (k a t).1 (subst (λ r. F.Rel s r.1) e (first.holds s))
              ((rest a).holds t))
      | inr (x, t, e) ↦
          let stops : (m >>= k) s ≡ (err x, t) = ground arith in
          subst (λ r. F.Rel s r.1) (sym stops) (subst (λ r. F.Rel s r.1) e (first.holds s))
    ];
  }

  pub returning-Respects : {A : Type 0} (a : A) → Respects (pure a)
  returning-Respects a = record { holds = F.reflexive }

  pub reading-Respects :
      {A B : Type 0} (f : S → A) (k : A → Action S B)
      → ((a : A) → Respects (k a))
      → Respects (gets f >>= k)
  reading-Respects f k rest = record { holds = λ s. (rest (f s)).holds s }

  pub guarded-Respects :
      {B : Type 0} (refused : Bool) (e : Error) (k : Unit {0} → Action S B)
      → ((u : Unit {0}) → Respects (k u))
      → Respects (throw_if refused e >>= k)
  guarded-Respects true e k rest = record { holds = F.reflexive }
  guarded-Respects false e k rest = rest tt

  pub guarded_last-Respects : (refused : Bool) (e : Error) → Respects (throw_if refused e)
  guarded_last-Respects true e = record { holds = F.reflexive }
  guarded_last-Respects false e = record { holds = F.reflexive }

  pub given-Respects :
      {A B : Type 0} (found : Option A) (e : Error) (k : A → Action S B)
      → ((a : A) → Respects (k a))
      → Respects (or_throw found e >>= k)
  given-Respects none e k rest = record { holds = F.reflexive }
  given-Respects (some a) e k rest = rest a

  pub writing-Respects :
      {B : Type 0} (f : S → S) (k : Unit {0} → Action S B)
      → ((s : S) → F.Rel s (f s))
      → ((u : Unit {0}) → Respects (k u))
      → Respects (modify f >>= k)
  writing-Respects f k write rest = record {
    holds = λ s. F.transitive s (f s) (k tt (f s)).1 (write s) ((rest tt).holds (f s));
  }

  pub last_write-Respects : (f : S → S) → ((s : S) → F.Rel s (f s)) → Respects (modify f)
  last_write-Respects f write = record { holds = write }

  pub transaction-Respects : {A : Type 0} (m : Action S A) → Respects m → Respects (transaction m)
  transaction-Respects m inside = record {
    holds = λ s. elim (Outcome-cases (m s)) [
      | inl (a, t, e) ↦
          let commits : transaction m s ≡ (ok a, t) = ground arith in
          subst (λ r. F.Rel s r.1) (sym commits) (subst (λ r. F.Rel s r.1) e (inside.holds s))
      | inr (x, t, e) ↦
          let rolls_back : transaction m s ≡ (err x, s) = ground arith in
          subst (λ r. F.Rel s r.1) (sym rolls_back) (F.reflexive s)
    ];
  }
