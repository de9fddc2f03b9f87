-- ===== src/Prelude/Loop.antt =====
-- A `while` or `loop` over a state that may break or return an error, on fuel, with its rule for
-- total correctness.
use Prim.Native.Nat.{ℕ, zero, suc, ◌<◌}
use mathlib.Core.Option.{Option, none, some}
use native.Mathlib.Omega.{arith}
use sim_core.Prelude.Result.{Result, ok, err, Ensures}

pub data Round (S : Type 0) : Type 0 where
  halt again : S → Round S

-- `none` means that the fuel ran out.
unfoldable pub loop : {S : Type 0} → ℕ → (S → Result (Round S)) → S → Option (Result S)
loop zero body s = none
loop (suc fuel) body s = elim (body s) [
  | err e ↦ some (err e)
  | ok (halt s') ↦ some (ok s')
  | ok (again s') ↦ loop fuel body s'
]

-- What one round has to give: the end with `Post`, or the invariant with less to do.
abbrev pub Turn : {S : Type 0} → (S → Type 0) → (S → Type 0) → (S → ℕ) → S → Round S → Type 0
Turn Inv Post measure s (halt s') = Post s'
Turn Inv Post measure s (again s') = Inv s' × (measure s' < measure s)

-- The loop returned, and what it returned, if no error, is as it should be.
abbrev pub Returns : {S : Type 0} → (S → Type 0) → Option (Result S) → Type 0
Returns Post none = ⊥
Returns Post (some r) = Ensures Post r

module _ {S : Type 0} (Inv Post : S → Type 0) (measure : S → ℕ) (body : S → Result (Round S))
    (turn : (s : S) → Inv s → Ensures (Turn Inv Post measure s) (body s)) where
  pub loop-Returns : (fuel : ℕ) (s : S) → Inv s → measure s < fuel → Returns Post (loop fuel body s)
  unfolding loop
  loop-Returns zero s i h = absurd (omega arith)
  loop-Returns (suc fuel) s i h =
      go (body s) (turn s i) (λ s' i' less. loop-Returns fuel s' i' (omega arith))
    where
      go :
          (m : Result (Round S))
          → Ensures (Turn Inv Post measure s) m
          → ((s' : S) → Inv s' → measure s' < measure s → Returns Post (loop fuel body s'))
          → Returns Post (elim m [
            | err e ↦ some (err e)
            | ok (halt s') ↦ some (ok s')
            | ok (again s') ↦ loop fuel body s'
          ])
      go (err e) t rest = tt
      go (ok (halt s')) t rest = t
      go (ok (again s')) t rest = rest s' t.0 t.1

-- What holds of a run, if it ends with a value.
abbrev pub Holds : {S : Type 0} → (S → Type 0) → Option (Result S) → Type 0
Holds Post none = Unit
Holds Post (some r) = Ensures Post r

-- Either way of a round.
abbrev pub Either : {S : Type 0} → (S → Type 0) → Round S → Type 0
Either Inv (halt s) = Inv s
Either Inv (again s) = Inv s

module _ {S : Type 0} (Inv : S → Type 0) (body : S → Result (Round S))
    (keep : (s : S) → Inv s → Ensures (Either Inv) (body s)) where
  pub loop-Holds : (fuel : ℕ) (s : S) → Inv s → Holds Inv (loop fuel body s)
  unfolding loop
  loop-Holds zero s i = tt
  loop-Holds (suc fuel) s i = go (body s) (keep s i) (λ s' i'. loop-Holds fuel s' i')
    where
      go :
          (m : Result (Round S))
          → Ensures (Either Inv) m
          → ((s' : S) → Inv s' → Holds Inv (loop fuel body s'))
          → Holds Inv (elim m [
            | err e ↦ some (err e)
            | ok (halt s') ↦ some (ok s')
            | ok (again s') ↦ loop fuel body s'
          ])
      go (err e) t rest = tt
      go (ok (halt s')) t rest = t
      go (ok (again s')) t rest = rest s' t

module _ {S : Type 0} (P Q R : S → Type 0) (both : (s : S) → P s → Q s → R s) where
  pub Returns-both : (o : Option (Result S)) → Returns P o → Holds Q o → Returns R o
  Returns-both none p q = p
  Returns-both (some (err e)) p q = tt
  Returns-both (some (ok s)) p q = both s p q

module _ {S : Type 0} (P Q : S → Type 0) (f : (s : S) → P s → Q s) where
  pub Returns-imp : (o : Option (Result S)) → Returns P o → Returns Q o
  Returns-imp none p = p
  Returns-imp (some (err e)) p = tt
  Returns-imp (some (ok s)) p = f s p
