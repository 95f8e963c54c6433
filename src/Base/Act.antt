-- ===== src/Base/Act.antt =====
-- A run of a handler that reads its environment and changes a store: it ends with a value or an
-- error, and the store holds what was changed before an error. A test of the environment says which
-- calls fail.
use mathlib.Core.Path.{◌≡◌}
use mathlib.Core.Bool.{Bool}
use tor_gateway.Base.Tests.{if◌then◌else◌}

pub data Outcome {ℓ κ} (E : Type ℓ) (A : Type κ) : Type (ℓ ⊔ κ) where
  done : A → Outcome E A
  error : E → Outcome E A

-- An error is dropped.
abbrev pub ignored {ℓ κ σ} :
    {E : Type ℓ} {A : Type κ} {S : Type σ} → Outcome E A × S → Outcome {ℓ, 0} E Unit × S
ignored (o, s) = (Outcome.done tt, s)

module _ {ρ σ ε} (R : Type ρ) (S : Type σ) (E : Type ε) where
  abbrev pub Act {ℓ} : Type ℓ → Type (ρ ⊔ σ ⊔ ε ⊔ ℓ)
  Act A = R → S → Outcome E A × S

module _ {ρ σ ε} {R : Type ρ} {S : Type σ} {E : Type ε} where
  abbrev pub return {ℓ} : {A : Type ℓ} → A → Act R S E A
  return a r s = (Outcome.done a, s)

  abbrev pub raise {ℓ} : {A : Type ℓ} → E → Act R S E A
  raise e r s = (Outcome.error e, s)

  abbrev pub after {ℓ κ} :
      {A : Type ℓ} {B : Type κ} → Outcome E A × S → (A → Act R S E B) → R → Outcome E B × S
  after (Outcome.done a, s) f r = f a r s
  after (Outcome.error e, s) f r = (Outcome.error e, s)

  infixl 5 ◌>>=◌
  abbrev pub ◌>>=◌ {ℓ κ} : {A : Type ℓ} {B : Type κ} → Act R S E A → (A → Act R S E B) → Act R S E B
  (m >>= f) r s = after (m r s) f r

  infixl 5 ◌>>◌
  abbrev pub ◌>>◌ {ℓ κ} : {A : Type ℓ} {B : Type κ} → Act R S E A → Act R S E B → Act R S E B
  m >> n = m >>= λ a. n

  abbrev pub gets {ℓ} : {A : Type ℓ} → (S → A) → Act R S E A
  gets f r s = (Outcome.done (f s), s)

  abbrev pub asks {ℓ} : {A : Type ℓ} → (R → A) → Act R S E A
  asks f r s = (Outcome.done (f r), s)

  abbrev pub modify : (S → S) → Act {ρ, σ, ε, 0} R S E Unit
  modify f r s = (Outcome.done tt, f s)

  -- A call that fails with the error where the test says so.
  abbrev pub attempt : (R → Bool) → E → Act {ρ, σ, ε, 0} R S E Unit
  attempt fails e r s = if fails r then (Outcome.error e, s) else (Outcome.done tt, s)

  abbrev pub ignore {ℓ} : {A : Type ℓ} → Act R S E A → Act {ρ, σ, ε, 0} R S E Unit
  ignore m r s = ignored (m r s)

  -- What every run of an action leaves of the store it finds.
  pub record Keeps {ℓ κ} {A : Type ℓ} (P : S → S → Type κ) (m : Act R S E A)
      : Type (ρ ⊔ σ ⊔ κ) where
    pub run : (r : R) (s : S) → P s (m r s).1

  module _ {κ} (P : S → S → Type κ) (trans : (s t u : S) → P s t → P t u → P s u) where
    after-Keeps {ℓ ι} :
        {A : Type ℓ} {B : Type ι} (s : S) (x : Outcome E A × S) (f : A → Act R S E B) (r : R)
        → P s x.1
        → ((a : A) → Keeps P (f a))
        → P s (after x f r).1
    after-Keeps s (Outcome.done a, t) f r p k = trans s t (f a r t).1 p ((k a).run r t)
    after-Keeps s (Outcome.error e, t) f r p k = p

    pub bind-Keeps {ℓ ι} :
        {A : Type ℓ} {B : Type ι} {m : Act R S E A} {f : A → Act R S E B}
        → Keeps P m
        → ((a : A) → Keeps P (f a))
        → Keeps P (m >>= f)
    bind-Keeps {m = m} {f = f} p k = record { run = λ r s. after-Keeps s (m r s) f r (p.run r s) k }

  -- What holds of every value that an action ends with, and of the store then.
  pub record Ends {ℓ κ} {A : Type ℓ} (Q : A → S → Type κ) (m : Act R S E A)
      : Type (ρ ⊔ σ ⊔ ε ⊔ ℓ ⊔ κ) where
    pub run : (r : R) (s : S) (a : A) → (m r s).0 ≡ Outcome.done a → Q a (m r s).1

  after-Ends {ℓ ι κ} :
      {A : Type ℓ} {B : Type ι} (Q : B → S → Type κ) (x : Outcome E A × S) (f : A → Act R S E B)
      (r : R) (b : B)
      → ((a : A) → Ends Q (f a))
      → (after x f r).0 ≡ Outcome.done b
      → Q b (after x f r).1
  after-Ends Q (Outcome.done a, t) f r b k e = (k a).run r t b e
  after-Ends Q (Outcome.error x, t) f r b k e = absurd (cc e)

  pub bind-Ends {ℓ ι κ} :
      {A : Type ℓ} {B : Type ι} {Q : B → S → Type κ} (m : Act R S E A) {f : A → Act R S E B}
      → ((a : A) → Ends Q (f a))
      → Ends Q (m >>= f)
  bind-Ends {Q = Q} m {f = f} k = record { run = λ r s b e. after-Ends Q (m r s) f r b k e }
