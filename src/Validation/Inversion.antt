-- ===== src/Validation/Inversion.antt =====
-- What must have happened where a check or a chain of checks accepts.
use vpsops.Base.{◌≡◌, refl, Bool, true, false}
use vpsops.Validation.{Invalid, Checked, accepted, rejected, ◌>>=◌, reject_if}

pub bind-accepted {ℓ κ} :
    {A : Type ℓ} {B : Type κ} (m : Checked A) (f : A → Checked B) (b : B)
    → m >>= f ≡ accepted b
    → (a : A) × (m ≡ accepted a) × (f a ≡ accepted b)
bind-accepted (accepted a) f b h = (a, refl, h)
bind-accepted (rejected e) f b h = absurd (clash h)
  where
    clash : rejected e ≡ accepted b → ⊥
    clash p = cc

-- A test that did not reject was false, and what follows went on.
pub reject_if-accepted {ℓ} :
    {B : Type ℓ} (bad : Bool) (e : Invalid) (next : Checked B) (b : B)
    → reject_if bad e >>= (λ u. next) ≡ accepted b
    → (bad ≡ false) × (next ≡ accepted b)
reject_if-accepted true e next b h = absurd (clash h)
  where
    clash : rejected e ≡ accepted b → ⊥
    clash p = cc
reject_if-accepted false e next b h = (refl, h)

pub reject_if-last :
    (bad : Bool) (e : Invalid) (u : Unit {0}) → reject_if bad e ≡ accepted u → bad ≡ false
reject_if-last true e u h = absurd (clash h)
  where
    clash : rejected e ≡ accepted u → ⊥
    clash p = cc
reject_if-last false e u h = refl
