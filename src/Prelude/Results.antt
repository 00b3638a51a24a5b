-- ===== src/Prelude/Results.antt =====
-- What a call of a C function comes to: a value, an error code, or a fault. A fault stands for
-- behaviour that C does not define or that ends the process: an access outside an object, a read of
-- a value that was never set, a failed assert.
use Prim.Native.Nat.{ℕ}
use mathlib.Core.Path.{◌≡◌, refl, sym, ap, ◌∙◌, subst}
use mathlib.Core.Bool.{Bool, true, false}
use mathlib.Core.Option.{Option, none, some}

-- `failed n` is the return value -n; `enomem` and `einval` are -ENOMEM and -EINVAL. `out_of_fuel` is no
-- value of the program: a loop of the model did not end within its rounds.
pub data Error : Type 0 where
  enomem einval out_of_fuel : Error
  failed : ℕ → Error

pub data Outcome {ℓ} (A : Type ℓ) : Type ℓ where
  ok : A → Outcome A
  err : Error → Outcome A
  fault : Outcome A

infixl 5 ◌>>=◌ ◌>>◌
abbrev pub ◌>>=◌ {ℓ κ} : {A : Type ℓ} {B : Type κ} → Outcome A → (A → Outcome B) → Outcome B
ok a >>= f = f a
err e >>= f = err e
fault >>= f = fault

abbrev pub ◌>>◌ {ℓ} : {B : Type ℓ} → Outcome (Unit {0}) → Outcome B → Outcome B
m >> k = m >>= λ _. k

-- `if (!test) return error`
abbrev pub guard : Bool → Error → Outcome (Unit {0})
guard true e = ok tt
guard false e = err e

-- `assert(test)`
abbrev pub assert : Bool → Outcome (Unit {0})
assert true = ok tt
assert false = fault

-- A pointer that may be null, used without a test.
abbrev pub deref {ℓ} : {A : Type ℓ} → Option A → Outcome A
deref none = fault
deref (some a) = ok a

-- The result of an allocation: null is answered by an error.
abbrev pub alloc_or {ℓ} : {A : Type ℓ} → Error → Option A → Outcome A
alloc_or e none = err e
alloc_or e (some a) = ok a

pub bind_ok {ℓ} : {A : Type ℓ} (m : Outcome A) → (m >>= λ a. ok a) ≡ m
bind_ok (ok a) = refl
bind_ok (err e) = refl
bind_ok fault = refl

pub bind_assoc {ℓ κ μ} :
    {A : Type ℓ} {B : Type κ} {C : Type μ} (m : Outcome A) (f : A → Outcome B) (g : B → Outcome C)
    → ((m >>= f) >>= g) ≡ (m >>= λ a. f a >>= g)
bind_assoc (ok a) f g = refl
bind_assoc (err e) f g = refl
bind_assoc fault f g = refl

-- What follows three steps, of which the last two and the result are known.
pub bind_last {ℓ κ μ ν} :
    {A : Type ℓ} {B : Type κ} {C : Type μ} {D : Type ν} (m : Outcome A) (f : A → Outcome B)
    (g : B → Outcome C) (k : C → D) {t : C}
    → (m >>= λ a. f a >>= g) ≡ ok t
    → (m >>= λ a. f a >>= λ b. g b >>= λ c. ok (k c)) ≡ ok (k t)
bind_last (ok a) f g k e =
    sym (bind_assoc (f a) g (λ c. ok (k c))) ∙ ap (λ m. m >>= λ c. ok (k c)) e
bind_last (err x) f g k e = cc
bind_last fault f g k e = cc

pub assert_then {ℓ} : {A : Type ℓ} (c : Bool) (m : Outcome A) → c ≡ true → (assert c >> m) ≡ m
assert_then c m e = rw e refl

-- The first two of three steps, where what they come to is known.
pub bind_then {ℓ κ μ} :
    {A : Type ℓ} {B : Type κ} {C : Type μ} (m : Outcome A) (f : A → Outcome B) (k : B → Outcome C)
    {b : B}
    → (m >>= f) ≡ ok b
    → (m >>= λ a. f a >>= k) ≡ k b
bind_then m f k e = sym (bind_assoc m f k) ∙ ap (λ n. n >>= k) e

-- A result that is changed once more.
pub bind_mapped {ℓ κ μ ν} :
    {A : Type ℓ} {B : Type κ} {C : Type μ} {D : Type ν} (m : Outcome A) (f : A → Outcome B)
    (g : B → C) (k : C → D) {c : C}
    → (m >>= λ a. f a >>= λ b. ok (g b)) ≡ ok c
    → (m >>= λ a. f a >>= λ b. ok (k (g b))) ≡ ok (k c)
bind_mapped (ok a) f g k e =
    sym (bind_assoc (f a) (λ b. ok (g b)) (λ c. ok (k c))) ∙ ap (λ n. n >>= λ c. ok (k c)) e
bind_mapped (err x) f g k e = cc
bind_mapped fault f g k e = cc

pub guard_then {ℓ} :
    {A : Type ℓ} (c : Bool) (e : Error) (m : Outcome A) → c ≡ true → (guard c e >> m) ≡ m
guard_then c e m h = rw h refl

ok_inv {ℓ} : {A : Type ℓ} (a b : A) → ok a ≡ ok b → a ≡ b
ok_inv a b e = cc

-- What holds of the value, if there is one.
pub record Post {ℓ κ} {A : Type ℓ} (P : A → Type κ) (m : Outcome A) : Type (ℓ ⊔ κ) where
  pub holds : (a : A) → m ≡ ok a → P a

module _ {ℓ κ} {A : Type ℓ} (P : A → Type κ) where
  pub Post-ok : (a : A) → P a → Post P (ok a)
  Post-ok a p = record { holds = λ b e. subst P (ok_inv a b e) p }

  pub Post-bind {μ} :
      {B : Type μ} (m : Outcome B) (f : B → Outcome A)
      → ((b : B) → m ≡ ok b → Post P (f b))
      → Post P (m >>= f)
  Post-bind (ok b) f g = g b refl
  Post-bind (err e) f g = record { holds = λ a e. cc }
  Post-bind fault f g = record { holds = λ a e. cc }

  pub Post-guard :
      (c : Bool) (e : Error) (m : Outcome A) → (c ≡ true → Post P m) → Post P (guard c e >> m)
  Post-guard true e m g = g refl
  Post-guard false e m g = record { holds = λ a e. cc }

-- What a call that succeeds has made on the way.
pub bind_inv {ℓ κ} :
    {A : Type ℓ} {B : Type κ} (m : Outcome A) (f : A → Outcome B) {b : B}
    → (m >>= f) ≡ ok b
    → (a : A) × (m ≡ ok a) × (f a ≡ ok b)
bind_inv (ok a) f e = (a, refl, e)
bind_inv (err x) f e = cc
bind_inv fault f e = cc
