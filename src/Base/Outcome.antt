-- ===== src/Base/Outcome.antt =====
-- A call that may raise: the value with the new state, or the exception. A call under
-- `transaction.atomic` that raises leaves the database alone, so `err` carries no state.
use mathlib.Core.Path.{◌≡◌, refl, ap}
use mathlib.Core.Bool.{Bool, true, false}
use mathlib.Core.Option.{Option, none, some}

pub data Result {ℓ κ} (E : Type ℓ) (V : Type κ) : Type (ℓ ⊔ κ) where
  err : E → Result E V
  ok : V → Result E V

-- One call after another: an exception ends the chain.
infixl 5 ◌>>=◌ ◌>>◌
abbrev pub ◌>>=◌ {ℓ κ μ} :
    {E : Type ℓ} {V : Type κ} {W : Type μ} → Result E V → (V → Result E W) → Result E W
◌>>=◌ (err raised) next = err raised
◌>>=◌ (ok value) next = next value

abbrev pub ◌>>◌ {ℓ μ} : {E : Type ℓ} {W : Type μ} → Result E (Unit {0}) → Result E W → Result E W
check >> next = ◌>>=◌ check (λ done. next)

-- `if c: raise e`
abbrev pub raise_if {ℓ} : {E : Type ℓ} → Bool → E → Result E (Unit {0})
raise_if true e = err e
raise_if false e = ok tt

-- `.get(…)`, which raises when there is no such row
abbrev pub or_raise {ℓ κ} : {E : Type ℓ} {A : Type κ} → Option A → E → Result E A
or_raise none e = err e
or_raise (some a) e = ok a

-- The value that the first of two calls returned, when both did.
pub >>=-eq-ok {ℓ κ μ} :
    {E : Type ℓ} {V : Type κ} {W : Type μ} (call : Result E V) (next : V → Result E W) {last : W}
    → ◌>>=◌ call next ≡ ok last
    → (value : V) × (call ≡ ok value) × (next value ≡ ok last)
>>=-eq-ok (err raised) next both = cc
>>=-eq-ok (ok value) next both = (value, refl, both)

pub raise_if-eq-ok {ℓ μ} :
    {E : Type ℓ} {B : Type μ} (c : Bool) (e : E) (k : Result E B) {b : B}
    → (raise_if c e >> k) ≡ ok b
    → (c ≡ false) × (k ≡ ok b)
raise_if-eq-ok true e k h = cc
raise_if-eq-ok false e k h = (refl, h)

pub ok_injective {ℓ κ} :
    {E : Type ℓ} {A : Type κ} {a b : A} → ◌≡◌ {A = Result E A} (ok a) (ok b) → a ≡ b
ok_injective h = cc

pub or_raise-eq-ok {ℓ κ} :
    {E : Type ℓ} {A : Type κ} (o : Option A) (e : E) {a : A} → or_raise o e ≡ ok a → o ≡ some a
or_raise-eq-ok none e h = cc
or_raise-eq-ok (some b) e h = ap some (ok_injective h)

pub some_injective {ℓ} : {A : Type ℓ} {a b : A} → some a ≡ some b → a ≡ b
some_injective h = cc

-- The value of a call that returns, for use in examples.
abbrev pub returned {ℓ κ} : {E : Type ℓ} {A : Type κ} → A → Result E A → A
returned default (ok a) = a
returned default (err e) = default
