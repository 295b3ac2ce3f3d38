-- ===== src/Base/Actions.antt =====
-- Code that reads and changes a state and may fail. A failed call leaves what it has written.
use mai3_broker.Base.{◌≡◌, refl, Result, ok, err}

abbrev pub Action : Type 0 → Type 0 → Type 0 → Type 0
Action E W A = W → Result E A × W

infixl 5 ◌>>=◌ ◌>>◌
abbrev pub ◌>>=◌ : {E W A B : Type 0} → Action E W A → (A → Action E W B) → Action E W B
◌>>=◌ m f w = let (r, w') = m w in elim r [ ok a ↦ f a w' | err e ↦ (err e, w') ]

abbrev pub ◌>>◌ : {E W A B : Type 0} → Action E W A → Action E W B → Action E W B
m >> k = m >>= λ _. k

abbrev pub pure : {E W A : Type 0} → A → Action E W A
pure a w = (ok a, w)

abbrev pub fail_with : {E W A : Type 0} → E → Action E W A
fail_with e w = (err e, w)

-- Inversion of a successful chain.
pub >>=-eq-ok :
    {E W A B : Type 0} (m : Action E W A) (f : A → Action E W B) (w : W) {b : B} {w' : W}
    → (m >>= f) w ≡ (ok b, w')
    → (a : A) × (v : W) × (m w ≡ (ok a, v)) × (f a v ≡ (ok b, w'))
>>=-eq-ok {E} {W} {A} {B} m f w {b} {w'} e = go (m w) refl e
  where
    go :
        (r : Result E A × W)
        → m w ≡ r
        → elim r.0 [ ok a ↦ f a r.1 | err e ↦ (err e, r.1) ] ≡ (ok b, w')
        → (a : A) × (v : W) × (m w ≡ (ok a, v)) × (f a v ≡ (ok b, w'))
    go (ok a, v) h e = (a, v, h, e)
    go (err x, v) h e = absurd (cc)

pub pure-eq-ok :
    {E W A : Type 0} (a b : A) (w w' : W)
    → ◌≡◌ {A = Result E A × W} (ok a, w) (ok b, w')
    → (a ≡ b) × (w ≡ w')
pure-eq-ok a b w w' e = (cc, cc)
