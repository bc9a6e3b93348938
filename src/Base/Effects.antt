-- ===== src/Base/Effects.antt =====
-- Methods that change an object and may fail: a Go method that returns an `error`, or that panics.
-- What was written before a failure stays written.
pub data Outcome {ℓ κ} (E : Type κ) (A : Type ℓ) : Type (ℓ ⊔ κ) where
  ok : A → Outcome E A
  err : E → Outcome E A
  panic : Outcome E A

abbrev pub Exec {ℓ} : Type ℓ → Type ℓ → Type ℓ → Type ℓ
Exec S E A = S → Outcome E A × S

abbrev pub continue {ℓ} : {S E A B : Type ℓ} → Outcome E A → (A → Exec S E B) → Exec S E B
continue (ok a) f s = f a s
continue (err c) f s = (err c, s)
continue panic f s = (panic, s)

infixl 10 ◌>>=◌ ◌>>◌
abbrev pub ◌>>=◌ {ℓ} : {S E A B : Type ℓ} → Exec S E A → (A → Exec S E B) → Exec S E B
◌>>=◌ m f s = let (r, s') = m s in continue r f s'

abbrev pub ◌>>◌ {ℓ} : {S E A B : Type ℓ} → Exec S E A → Exec S E B → Exec S E B
m >> n = m >>= λ _. n

abbrev pub pure {ℓ} : {S E A : Type ℓ} → A → Exec S E A
pure a s = (ok a, s)

abbrev pub raise {ℓ} : {S E A : Type ℓ} → E → Exec S E A
raise c s = (err c, s)

abbrev pub crash {ℓ} : {S E A : Type ℓ} → Exec S E A
crash s = (panic, s)

abbrev pub gets {ℓ} : {S E A : Type ℓ} → (S → A) → Exec S E A
gets f s = (ok (f s), s)

abbrev pub modify : {S E : Type 0} → (S → S) → Exec S E (Unit {0})
modify f s = (ok tt, f s)
