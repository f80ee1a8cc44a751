-- ===== src/Base/Failure.antt =====
-- Fallible code: a value, or the refusal that was thrown.
use mathlib.Core.Path.{◌≡◌, refl}
use mathlib.Core.Bool.{Bool, true, false}
use mathlib.Core.Option.{Option, none, some}

pub data Outcome {ℓ κ} (E : Type κ) (A : Type ℓ) : Type (ℓ ⊔ κ) where
  ok : A → Outcome E A
  refused : E → Outcome E A

infixl 5 ◌>>=◌ ◌>>◌
abbrev pub ◌>>=◌ {ℓ κ μ} :
    {E : Type μ} {A : Type ℓ} {B : Type κ} (step : Outcome E A) (next : A → Outcome E B)
    → Outcome E B
refused why >>= next = refused why
ok value >>= next = next value

-- A check, then the rest.
abbrev pub ◌>>◌ {ℓ κ} :
    {E : Type κ} {B : Type ℓ} (check : Outcome E (Unit {0})) (rest : Outcome E B) → Outcome E B
check >> rest = check >>= λ _. rest

module _ {E : Type 0} where
  -- `if (b) throw e`
  abbrev pub refuse_if : Bool → E → Outcome E (Unit {0})
  refuse_if true e = refused e
  refuse_if false e = ok tt

  -- A row or the refusal.
  abbrev pub require {ℓ} : {A : Type ℓ} → Option A → E → Outcome E A
  require none e = refused e
  require (some a) e = ok a

  pub require-eq-ok {ℓ} :
      {A : Type ℓ} (o : Option A) (e : E) {a : A} → require o e ≡ ok a → o ≡ some a
  require-eq-ok none e h = cc
  require-eq-ok (some b) e h = cc

  pub refuse_if-eq-ok : (b : Bool) (e : E) {u : Unit {0}} → refuse_if b e ≡ ok u → b ≡ false
  refuse_if-eq-ok true e h = cc
  refuse_if-eq-ok false e h = refl

  -- What a bind that succeeds went through, for a proof that goes on with the value.
  pub through {ℓ κ μ} :
      {A : Type ℓ} {B : Type κ} {P : Type μ} (m : Outcome E A) (f : A → Outcome E B) {b : B}
      → (m >>= f) ≡ ok b
      → ((a : A) → m ≡ ok a → f a ≡ ok b → P)
      → P
  through (ok a) f h k = k a refl h
  through (refused e) f h k = absurd (cc)

  pub committed {ℓ} : {A : Type ℓ} {a b : A} → ◌≡◌ {A = Outcome E A} (ok a) (ok b) → a ≡ b
  committed h = cc
