-- ===== src/Prelude/Result.antt =====
-- `EngineError` of src/engine.rs and the `Result` of fallible code. An error is its machine-readable
-- code and its retry flag; the message for people is left out.
use Prim.Native.String.{String}
use mathlib.Core.Path.{◌≡◌, refl}
use mathlib.Core.Bool.{Bool, true, false}
use mathlib.Core.Option.{Option, none, some}
use mathlib.Core.Logic.{◌⊎◌, inl, inr, ◌↔◌}
use native.Mathlib.Omega.{arith}

pub record EngineError : Type 0 where
  pub code : String
  pub retryable : Bool

pub data Result {ℓ} (A : Type ℓ) : Type ℓ where
  ok : A → Result A
  err : EngineError → Result A

-- `EngineError::new`.
abbrev pub engine_error : String → EngineError
engine_error c = record { code = c; retryable = false }

abbrev pub fail {ℓ} : {A : Type ℓ} → String → Result A
fail c = err (engine_error c)

-- The operator `?`: what follows runs on a value, and an error ends the function.
infixl 5 ◌>>=◌
abbrev pub ◌>>=◌ {ℓ ℓ'} :
    {Value : Type ℓ} {Next : Type ℓ'} → Result Value → (Value → Result Next) → Result Next
err stopped >>= next = err stopped
ok value >>= next = next value

-- The same after a check, which has no value.
infixl 5 ◌>>◌
abbrev pub ◌>>◌ {ℓ} : {Next : Type ℓ} → Result (Unit {0}) → Result Next → Result Next
check >> next = check >>= λ passed. next

-- `if test { return Err(..) }`.
abbrev pub reject : Bool → String → Result (Unit {0})
reject true c = fail c
reject false c = ok tt

abbrev pub ok_or {ℓ} : {A : Type ℓ} → Option A → String → Result A
ok_or none c = fail c
ok_or (some a) c = ok a

pub >>=-eq-ok {ℓ ℓ'} :
    {Value : Type ℓ} {Next : Type ℓ'} (m : Result Value) (next : Value → Result Next)
    {result : Next}
    → (m >>= next) ≡ ok result
    → (value : Value) × (m ≡ ok value) × (next value ≡ ok result)
>>=-eq-ok (err stopped) next h = cc
>>=-eq-ok (ok value) next h = (value, refl, h)

pub Result-cases {ℓ} :
    {A : Type ℓ} (m : Result A) → ((a : A) × (m ≡ ok a)) ⊎ ((e : EngineError) × (m ≡ err e))
Result-cases (ok a) = inl (a, refl)
Result-cases (err e) = inr (e, refl)

-- What holds of a result, if it is one.
abbrev pub Ensures {ℓ κ} : {A : Type ℓ} → (A → Type κ) → Result A → Type κ
Ensures P (ok a) = P a
Ensures P (err e) = Unit

pub Ensures-bind {ℓ κ ℓ' κ'} :
    {A : Type ℓ} {B : Type ℓ'} (P : A → Type κ) (Q : B → Type κ') (m : Result A) (f : A → Result B)
    → Ensures P m
    → ((a : A) → P a → Ensures Q (f a))
    → Ensures Q (m >>= f)
Ensures-bind P Q (ok a) f h k = k a h
Ensures-bind P Q (err e) f h k = tt

pub Ensures-imp {ℓ κ κ'} :
    {A : Type ℓ} (P : A → Type κ) (Q : A → Type κ') (m : Result A)
    → ((a : A) → P a → Q a)
    → Ensures P m
    → Ensures Q m
Ensures-imp P Q (ok a) f h = f a h
Ensures-imp P Q (err e) f h = tt

pub Ensures-ok {ℓ κ} :
    {A : Type ℓ} (P : A → Type κ) (m : Result A) {a : A} → m ≡ ok a → Ensures P m → P a
Ensures-ok P m e h = rw e at h

pub Ensures-any {ℓ} : {A : Type ℓ} (m : Result A) → Ensures (λ a. Unit {0}) m
Ensures-any (ok a) = tt
Ensures-any (err e) = tt

pub Ensures-and {ℓ κ κ'} :
    {A : Type ℓ} (P : A → Type κ) (Q : A → Type κ') (m : Result A)
    → Ensures P m
    → Ensures Q m
    → Ensures (λ a. P a × Q a) m
Ensures-and P Q (ok a) p q = (p, q)
Ensures-and P Q (err e) p q = tt

-- What follows a guard may rely on its test.
pub Ensures-guard {ℓ κ} :
    {B : Type ℓ} (Q : B → Type κ) (test : Bool) (c : String) (k : Result B)
    → (test ≡ false → Ensures Q k)
    → Ensures Q (reject test c >> k)
Ensures-guard Q true c k h = tt
Ensures-guard Q false c k h = h refl

pub Ensures-under {ℓ κ κ'} :
    {A : Type ℓ} {H : Type κ'} (P : A → Type κ) (m : Result A)
    → (H → Ensures P m)
    → Ensures (λ a. H → P a) m
Ensures-under P (ok a) h = h
Ensures-under P (err e) h = tt

-- Checks in a row pass when each passes.
pub >>-eq-ok : (m k : Result (Unit {0})) → ((m >> k) ≡ ok tt) ↔ ((m ≡ ok tt) × (k ≡ ok tt))
>>-eq-ok (ok u) k = (λ h. (refl, h), λ h. h.1)
>>-eq-ok (err e) k = (λ h. cc, λ h. cc)

pub reject-ok : (b : Bool) (c : String) → (reject b c ≡ ok tt) ↔ (b ≡ false)
reject-ok b c = ground arith

pub ok-eq-ok {ℓ} : {A : Type ℓ} (a b : A) → ok a ≡ ok b → a ≡ b
ok-eq-ok a b h = cc

-- What follows may rely on what came before.
pub Ensures-after {ℓ κ ℓ'} :
    {A : Type ℓ} {B : Type κ} (Q : B → Type ℓ') (m : Result A) (f : A → Result B)
    → ((a : A) → m ≡ ok a → Ensures Q (f a))
    → Ensures Q (m >>= f)
Ensures-after Q (ok a) f h = h a refl
Ensures-after Q (err e) f h = tt

pub ok_or-eq-ok {ℓ} :
    {A : Type ℓ} (o : Option A) (c : String) {a : A} → ok_or o c ≡ ok a → o ≡ some a
ok_or-eq-ok none c h = cc
ok_or-eq-ok (some b) c h = cc
