-- ===== src/Errno.antt =====
-- The error codes of the C functions, and results that carry one: `-EINVAL` is `err einval`.
use mathlib.Core.Path.{subst}
use pipewireao_spa_plugin_fi.Base.{ℕ, ◌≡◌, refl, ap, ◌∙◌, ◌⊎◌, inl, inr, Bool, true, false}

pub data Errno : Type 0 where
  einval enospc enotsup eoverflow eio eproto enoent ebusy enomem erange ebadmsg efbig : Errno
  -- An `errno` of a system call, or what an SPA service returns.
  system : ℕ → Errno

pub data Result {ℓ} (A : Type ℓ) : Type ℓ where
  ok : A → Result A
  err : Errno → Result A

-- `if (!test) return -e;`
abbrev pub guard : Bool → Errno → Result (Unit {0})
guard true e = ok tt
guard false e = err e

-- The next step of a function that returns early on an error.
infixl 5 ◌>>=◌
abbrev pub ◌>>=◌ {ℓ κ} : {A : Type ℓ} {B : Type κ} (m : Result A) (k : A → Result B) → Result B
err e >>= k = err e
ok x >>= k = k x

infixl 5 ◌>>◌
abbrev pub ◌>>◌ {ℓ} : {B : Type ℓ} (m : Result (Unit {0})) (next : Result B) → Result B
m >> next = m >>= λ _. next

pub Result-cases {ℓ} :
    {A : Type ℓ} (r : Result A) → ((a : A) × (r ≡ ok a)) ⊎ ((e : Errno) × (r ≡ err e))
Result-cases (ok a) = inl (a, refl)
Result-cases (err e) = inr (e, refl)

-- What a computation guarantees of its result, if it succeeds.
abbrev pub Ensures {ℓ κ} : {A : Type ℓ} → (A → Type κ) → Result A → Type κ
Ensures P (ok a) = P a
Ensures P (err e) = Unit

pub Ensures-bind {ℓ κ μ} :
    {A : Type ℓ} {B : Type κ} (P : B → Type μ) (m : Result A) (f : A → Result B)
    → ((a : A) → m ≡ ok a → Ensures P (f a))
    → Ensures P (m >>= f)
Ensures-bind P (ok a) f h = h a refl
Ensures-bind P (err e) f h = tt

pub Ensures-ok {ℓ κ} :
    {A : Type ℓ} (P : A → Type κ) (r : Result A) {a : A} → r ≡ ok a → Ensures P r → P a
Ensures-ok P r e h = subst (Ensures P) e h

pub guard-true : (b : Bool) (e : Errno) {u : Unit {0}} → guard b e ≡ ok u → b ≡ true
guard-true true e h = refl
guard-true false e h = cc

-- One step of a function whose result is known.
pub bind-step {ℓ κ} :
    {A : Type ℓ} {B : Type κ} {m : Result A} {a : A} {r : Result B} (f : A → Result B)
    → m ≡ ok a
    → f a ≡ r
    → (m >>= f) ≡ r
bind-step f e h = ap (λ n. n >>= f) e ∙ h

pub guard-step {ℓ} :
    {B : Type ℓ} {b : Bool} {r : Result B} (e : Errno) (next : Result B)
    → b ≡ true
    → next ≡ r
    → (guard b e >> next) ≡ r
guard-step e next b h = ap (λ t. guard t e >> next) b ∙ h
