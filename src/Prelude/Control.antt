-- ===== src/Prelude/Control.antt =====
-- Stateful code that may throw. What was changed before a throw stays changed.

pub data Outcome {ℓ} (E S A : Type ℓ) : Type ℓ where
  done : A → S → Outcome E S A
  thrown : E → S → Outcome E S A

module _ {ℓ} {E S A : Type ℓ} where
  abbrev pub pure : A → S → Outcome E S A
  pure a s = done a s

  abbrev pub throw : E → S → Outcome E S A
  throw e s = thrown e s

  -- The state in which a call leaves its object.
  abbrev pub after : Outcome E S A → S
  after (done a s) = s
  after (thrown e s) = s

module _ {ℓ} {E S A B : Type ℓ} where
  abbrev pub continue : Outcome E S A → (A → S → Outcome E S B) → Outcome E S B
  continue (done a s) f = f a s
  continue (thrown e s) f = thrown e s

  infixl 5 ◌>>=◌ ◌>>◌
  abbrev pub ◌>>=◌ : (S → Outcome E S A) → (A → S → Outcome E S B) → S → Outcome E S B
  ◌>>=◌ m f s = continue (m s) f

  abbrev pub ◌>>◌ : (S → Outcome E S A) → (S → Outcome E S B) → S → Outcome E S B
  ◌>>◌ m k s = continue (m s) (λ a. k)
