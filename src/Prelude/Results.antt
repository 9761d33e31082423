-- ===== src/Prelude/Results.antt =====
-- `Result<T, E>`: every error enumeration of the program is one `E`.
use mathlib.Core.Path.{◌≡◌, refl}
use mathlib.Core.Bool.{Bool, true, false}
use mathlib.Core.Option.{Option, none, some}

pub data Outcome {ℓ κ} (E : Type ℓ) (A : Type κ) : Type (ℓ ⊔ κ) where
  err : E → Outcome E A
  ok : A → Outcome E A

-- `if test { return Err(e); }`
abbrev pub refuse_if : {E : Type 0} → Bool → E → Outcome E (Unit {0})
refuse_if false error = ok tt
refuse_if true error = err error

-- `option.ok_or(e)`
abbrev pub ok_or : {E A : Type 0} → Option A → E → Outcome E A
ok_or none e = err e
ok_or (some a) e = ok a

-- `result.map_err(f)`
abbrev pub map_err : {E F A : Type 0} → (E → F) → Outcome E A → Outcome F A
map_err f (ok a) = ok a
map_err f (err e) = err (f e)

abbrev pub is_ok : {E A : Type 0} → Outcome E A → Bool
is_ok (ok a) = true
is_ok (err e) = false

-- The `?` operator, for `do` blocks.
infixl 5 ◌>>=◌
abbrev pub ◌>>=◌ {ℓ} : {E A B : Type ℓ} → Outcome E A → (A → Outcome E B) → Outcome E B
err error >>= next = err error
ok value >>= next = next value

infixl 5 ◌>>◌
abbrev pub ◌>>◌ : {E B : Type 0} → Outcome E (Unit {0}) → Outcome E B → Outcome E B
first >> next = first >>= λ _. next

-- Inversion of a successful bind, handing the value on as a variable.
pub after_ok {ℓ} :
    {E A B : Type 0} {R : Type ℓ} (first : Outcome E A) (next : A → Outcome E B) {result : B}
    → (first >>= next) ≡ ok result
    → ((value : A) → first ≡ ok value → next value ≡ ok result → R)
    → R
after_ok (err error) next h goal = absurd (cc h)
after_ok (ok value) next h goal = goal value refl h

pub >>=-eq-ok :
    {E A B : Type 0} (first : Outcome E A) (next : A → Outcome E B) {result : B}
    → (first >>= next) ≡ ok result
    → (value : A) × (first ≡ ok value) × (next value ≡ ok result)
>>=-eq-ok first next h = after_ok first next h λ value started ended. (value, started, ended)

pub map_err-eq-ok :
    {E F A : Type 0} (f : E → F) (result : Outcome E A) {a : A}
    → map_err f result ≡ ok a
    → result ≡ ok a
map_err-eq-ok f (ok b) h = cc
map_err-eq-ok f (err e) h = absurd (cc h)

-- Equal continuations give equal binds.
pub >>=-cong :
    {E A B : Type 0} (first : Outcome E A) (f g : A → Outcome E B)
    → ((a : A) → f a ≡ g a)
    → (first >>= f) ≡ (first >>= g)
>>=-cong (ok a) f g h = h a
>>=-cong (err e) f g h = refl

pub is_ok-eq-ok :
    {E A : Type 0} (result : Outcome E A) → is_ok result ≡ true → (a : A) × (result ≡ ok a)
is_ok-eq-ok (ok a) h = (a, refl)
is_ok-eq-ok (err e) h = absurd (cc h)

pub ok-injective : {E A : Type 0} {a b : A} → ◌≡◌ {A = Outcome E A} (ok a) (ok b) → a ≡ b
ok-injective h = cc h
