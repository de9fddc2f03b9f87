-- ===== src/Prelude/Safe.antt =====
-- Results that are no panic: an index out of range, or a failed `expect`.
use Prim.Native.Nat.{ℕ, zero, suc}
use Prim.Native.String.{String}
use mathlib.Core.Path.{◌≡◌, refl}
use mathlib.Core.Bool.{Bool, true, false}
use mathlib.Core.Option.{Option, none, some}
use text.Mathlib.Text.{◌==◌ as str_eq}
use sim_core.Prelude.Loop.{Round, halt, again, loop}
use sim_core.Prelude.Tests.{if◌then◌else◌}
use sim_core.Prelude.Result.{
  Result, ok, err, fail, EngineError, engine_error, reject, ok_or, ◌>>=◌, ◌>>◌,
}

abbrev pub is_panic : String → Bool
is_panic c = str_eq c "panic"

-- A value with `P`, or an error that is no panic.
abbrev pub Safe : {A : Type 0} → (A → Type 0) → Result A → Type 0
Safe P (ok a) = P a
Safe P (err e) = is_panic e.code ≡ false

module _ {A B : Type 0} (P : A → Type 0) (Q : B → Type 0) where
  pub Safe-bind :
      (m : Result A) (f : A → Result B)
      → Safe P m
      → ((a : A) → P a → Safe Q (f a))
      → Safe Q (m >>= f)
  Safe-bind (ok a) f h k = k a h
  Safe-bind (err e) f h k = h

module _ {B : Type 0} (Q : B → Type 0) where
  pub Safe-guard :
      (test : Bool) (c : String) (k : Result B)
      → is_panic c ≡ false
      → (test ≡ false → Safe Q k)
      → Safe Q (reject test c >> k)
  Safe-guard true c k h next = h
  Safe-guard false c k h next = next refl

pub Safe-imp :
    {A : Type 0} (P Q : A → Type 0) (m : Result A) → ((a : A) → P a → Q a) → Safe P m → Safe Q m
Safe-imp P Q (ok a) f h = f a h
Safe-imp P Q (err e) f h = h

-- A run that does not panic, if it comes to an end.
abbrev pub SafeRun : {A : Type 0} → (A → Type 0) → Option (Result A) → Type 0
SafeRun P none = Unit
SafeRun P (some r) = Safe P r

abbrev pub InRound : {S : Type 0} → (S → Type 0) → Round S → Type 0
InRound P (halt s) = P s
InRound P (again s) = P s

module _ {S : Type 0} (P : S → Type 0) (body : S → Result (Round S))
    (step : (s : S) → P s → Safe (InRound P) (body s)) where
  pub loop-SafeRun : (fuel : ℕ) (s : S) → P s → SafeRun P (loop fuel body s)
  unfolding loop
  loop-SafeRun zero s p = tt
  loop-SafeRun (suc fuel) s p = go (body s) (step s p) (loop-SafeRun fuel)
    where
      go :
          (m : Result (Round S))
          → Safe (InRound P) m
          → ((s' : S) → P s' → SafeRun P (loop fuel body s'))
          → SafeRun P (elim m [
            | err e ↦ some (err e)
            | ok (halt s') ↦ some (ok s')
            | ok (again s') ↦ loop fuel body s'
          ])
      go (err e) h rest = h
      go (ok (halt s')) h rest = h
      go (ok (again s')) h rest = rest s' h

pub Safe-reject : (test : Bool) (c : String) → is_panic c ≡ false → Safe (λ u. Unit) (reject test c)
Safe-reject true c h = h
Safe-reject false c h = tt

-- No panic, whatever the value; `search` finds it by the rules below.
pub data Calm {A : Type 0} : Result A → Type 0 where
  value : (a : A) → Calm (ok a)
  refusal : (e : EngineError) → is_panic e.code ≡ false → Calm (err e)

module _ {A : Type 0} where
  pub Calm-fail : {c : String} → is_panic c ≡ false → Calm (fail {A = A} c)
  Calm-fail {c} h = refusal (engine_error c) h

  pub Calm-if : (test : Bool) {m n : Result A} → Calm m → Calm n → Calm (if test then m else n)
  Calm-if true h k = h
  Calm-if false h k = k

  pub Calm-ok_or : (o : Option A) (c : String) → is_panic c ≡ false → Calm (ok_or o c)
  Calm-ok_or none c h = refusal (engine_error c) h
  Calm-ok_or (some a) c h = value a

pub Calm-Safe : {A : Type 0} (m : Result A) → Calm m → Safe (λ a. Unit) m
Calm-Safe m (value a) = tt
Calm-Safe m (refusal e h) = h

pub Calm-bind :
    {A B : Type 0} {m : Result A} {f : A → Result B}
    → Calm m
    → ((a : A) → Calm (f a))
    → Calm (m >>= f)
Calm-bind (value a) k = k a
Calm-bind (refusal e h) k = refusal e h

pub Calm-reject : (test : Bool) (c : String) → is_panic c ≡ false → Calm (reject test c)
Calm-reject true c h = refusal (engine_error c) h
Calm-reject false c h = value tt

pub ruleset calm = (value, Calm-fail, Calm-if, Calm-ok_or, Calm-bind, Calm-reject)
