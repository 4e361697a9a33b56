-- ===== src/Prelude/Results.antt =====
-- A call that may raise: it gives a value of `A`, or what it raises, an `E`.
use mathlib.Core.Path.{◌≡◌, refl, ap}
use mathlib.Core.Bool.{Bool, true, false}

pub data Result {ℓ} (E : Type 0) (A : Type ℓ) : Type ℓ where
  err : E → Result E A
  ok : A → Result E A

module _ {ℓ κ} {E : Type 0} {A : Type ℓ} {B : Type κ} where
  infixl 5 ◌>>=◌
  abbrev pub ◌>>=◌ : Result E A → (A → Result E B) → Result E B
  err raised >>= next = err raised
  ok value >>= next = next value

  -- A chain that gives a value went through its first call.
  pub bind-ok :
      (first : Result E A) (next : A → Result E B) {b : B}
      → (first >>= next) ≡ ok b
      → (value : A) × (first ≡ ok value) × (next value ≡ ok b)
  bind-ok (err raised) next h = cc
  bind-ok (ok value) next h = (value, refl, h)

module _ {ℓ} {E : Type 0} {B : Type ℓ} where
  infixl 5 ◌>>◌
  abbrev pub ◌>>◌ : Result E (Unit {0}) → Result E B → Result E B
  check >> rest = check >>= λ _. rest

  pub check-ok :
      (check : Result E (Unit {0})) (rest : Result E B) {b : B}
      → (check >> rest) ≡ ok b
      → (check ≡ ok tt) × (rest ≡ ok b)
  check-ok (err raised) rest h = cc
  check-ok (ok tt) rest h = (refl, h)

-- `if bad: raise e`
abbrev pub refuse : {E : Type 0} → Bool → E → Result E (Unit {0})
refuse false e = ok tt
refuse true e = err e

pub refuse-ok : {E : Type 0} (bad : Bool) (e : E) → refuse bad e ≡ ok tt → bad ≡ false
refuse-ok false e h = refl
refuse-ok true e h = cc

pub ok-injective : {E A : Type 0} (a b : A) → ◌≡◌ {A = Result E A} (ok a) (ok b) → a ≡ b
ok-injective a b h = cc h

module _ {E A : Type 0} where
  -- The call gives a value, and the value has the property.
  abbrev pub Gives : (A → Type 0) → Result E A → Type 0
  Gives P (err raised) = ⊥
  Gives P (ok value) = P value

  pub Gives-ok : (P : A → Type 0) (r : Result E A) → Gives P r → (a : A) × (r ≡ ok a) × P a
  Gives-ok P (err raised) h = absurd h
  Gives-ok P (ok a) h = (a, refl, h)

pub Gives-bind :
    {E A B : Type 0} (P : A → Type 0) (Q : B → Type 0) (r : Result E A) (f : A → Result E B)
    → Gives P r
    → ((a : A) → P a → Gives Q (f a))
    → Gives Q (r >>= f)
Gives-bind P Q (err raised) f h k = absurd h
Gives-bind P Q (ok a) f h k = k a h

-- A chain whose parts give values gives the last one.
pub bind-intro {ℓ κ} :
    {E : Type 0} {A : Type ℓ} {B : Type κ} (r : Result E A) (f : A → Result E B) (a : A)
    {b : Result E B}
    → r ≡ ok a
    → f a ≡ b
    → (r >>= f) ≡ b
bind-intro (err e) f a h k = cc
bind-intro (ok x) f a h k = rw (← k) (ap (λ y. elim y [ ok z ↦ f z | err e ↦ err e ]) h)

-- `except E as e: raise f(e)`
abbrev pub map_err : {E F A : Type 0} → (E → F) → Result E A → Result F A
map_err f (err e) = err (f e)
map_err f (ok a) = ok a

pub map_err-ok :
    {E F A : Type 0} (f : E → F) (r : Result E A) (a : A) → map_err f r ≡ ok a → r ≡ ok a
map_err-ok f (err e) a h = cc
map_err-ok f (ok b) a h = cc (ok-injective b a h)
