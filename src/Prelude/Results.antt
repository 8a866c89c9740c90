-- ===== src/Prelude/Results.antt =====
-- Fallible code over a state: what was written before a throw stays written, so that the state
-- comes back beside the error too.
use mathlib.Core.Bool.{Bool, true, false}
use mathlib.Core.Path.{◌≡◌, refl, ap}

pub data Result {ℓ} (E : Type ℓ) (A : Type ℓ) : Type ℓ where
  ok : A → Result E A
  err : E → Result E A

infixl 5 ◌>>=◌ ◌>>◌
abbrev pub ◌>>=◌ {ℓ} : {E A B : Type ℓ} → Result E A → (A → Result E B) → Result E B
ok a >>= f = f a
err e >>= f = err e

abbrev pub ◌>>◌ {ℓ} : {E A B : Type ℓ} → Result E A → Result E B → Result E B
m >> k = m >>= λ _. k

-- `if (!test) throw …` in front of what follows, with the state that a call leaves.
unfoldable pub guarded : {E A S : Type 0} → Bool → E → Result E A × S → S → Result E A × S
guarded true f next s = next
guarded false f next s = (err f, s)

pub guarded-eq-ok :
    {E A S : Type 0} (b : Bool) (f : E) (next : Result E A × S) (s : S) {a : A} {t : S}
    → guarded b f next s ≡ (ok a, t)
    → (b ≡ true) × (next ≡ (ok a, t))
unfolding guarded
guarded-eq-ok true f next s h = (refl, h)
guarded-eq-ok false f next s h = absurd (cc (ap (λ (x : Result _ _ × _). x.0) h))

-- A property of both outcomes holds of a guarded call if it holds of the refusal, and of what
-- follows when the test holds.
pub guarded_elim :
    {E A S : Type 0} (P : Result E A × S → Type 0) (b : Bool) (f : E) (next : Result E A × S)
    (s : S)
    → P (err f, s)
    → (b ≡ true → P next)
    → P (guarded b f next s)
unfolding guarded
guarded_elim P true f next s refused rest = rest refl
guarded_elim P false f next s refused rest = refused

-- The same where no state is at stake: `if (!test) return …`.
unfoldable pub ensure : {E A : Type 0} → Bool → E → Result E A → Result E A
ensure true f next = next
ensure false f next = err f

pub ensure-eq-ok :
    {E A : Type 0} (b : Bool) (f : E) (next : Result E A) {a : A}
    → ensure b f next ≡ ok a
    → (b ≡ true) × (next ≡ ok a)
unfolding ensure
ensure-eq-ok true f next h = (refl, h)
ensure-eq-ok false f next h = absurd (cc)
