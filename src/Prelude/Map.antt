-- ===== src/Prelude/Map.antt =====
-- `BTreeMap` and `BTreeSet` of the standard library: lists in the order of their keys.
use Prim.Native.Nat.{ℕ, Ordering, compare as compare_ℕ}
use Prim.Native.String.{String, compare as compare_String}
use mathlib.Core.Path.{◌≡◌, refl, subst}
use mathlib.Core.Bool.{Bool, true, false, ◌||◌}
use mathlib.Core.List.{List, [], ◌∷◌}
use mathlib.Core.Option.{Option, none, some, some-injective}
use mathlib.Core.Logic.{◌⊎◌, inl, inr}
use native.Mathlib.Omega.{arith}
use text.Mathlib.TextEquality.{path_by_compare}
use text.Mathlib.TextPositions.{compare_refl}
use sim_core.Prelude.Tests.{if◌then◌else◌, then_with, Bool-cases}
use sim_core.Prelude.Lists.{All}

-- What `Ord` and `Eq` promise of a key.
pub record Key (K : Type 0) : Type 0 where
  pub order : K → K → Ordering
  pub order_refl : (a : K) → order a a ≡ Ordering.eq
  pub order_eq : (a b : K) → order a b ≡ Ordering.eq → a ≡ b

pub order_refl-ℕ : (a : ℕ) → compare_ℕ a a ≡ Ordering.eq
order_refl-ℕ a = ground arith

pub order_eq-ℕ : (a b : ℕ) → compare_ℕ a b ≡ Ordering.eq → a ≡ b
order_eq-ℕ a b h = ground arith

instance abbrev pub nat_key : Key ℕ
nat_key = record { order = compare_ℕ; order_refl = order_refl-ℕ; order_eq = order_eq-ℕ }

instance abbrev pub string_key : Key String
string_key = record {
  order = compare_String;
  order_refl = compare_refl;
  order_eq = path_by_compare;
}

module _ {K L : Type 0} ⦃k : Key K⦄ ⦃l : Key L⦄ where
  -- A tuple: its parts in turn.
  abbrev pub pair_order : K × L → K × L → Ordering
  pair_order a b = then_with (k.order a.0 b.0) (l.order a.1 b.1)

  pub pair_order_refl : (a : K × L) → pair_order a a ≡ Ordering.eq
  pair_order_refl a = ground (arith, k.order_refl a.0, l.order_refl a.1)

  pub pair_order_eq : (a b : K × L) → pair_order a b ≡ Ordering.eq → a ≡ b
  pair_order_eq a b h = ground (arith, k.order_eq a.0 b.0, l.order_eq a.1 b.1)

  instance abbrev pub pair_key : Key (K × L)
  pair_key = record { order = pair_order; order_refl = pair_order_refl; order_eq = pair_order_eq }

abbrev pub is_eq : Ordering → Bool
is_eq Ordering.eq = true
is_eq _ = false

order-cases : (o : Ordering) → (o ≡ Ordering.lt) ⊎ ((o ≡ Ordering.eq) ⊎ (o ≡ Ordering.gt))
order-cases Ordering.lt = inl refl
order-cases Ordering.eq = inr (inl refl)
order-cases Ordering.gt = inr (inr refl)

is_eq-eq : (o : Ordering) → is_eq o ≡ true → o ≡ Ordering.eq
is_eq-eq o h = ground arith

module _ {K : Type 0} ⦃k : Key K⦄ where
  abbrev pub same : K → K → Bool
  same a b = is_eq (k.order a b)

  pub same_refl : (a : K) → same a a ≡ true
  same_refl a = ground (arith, k.order_refl a)

  pub same_eq : (a b : K) → same a b ≡ true → a ≡ b
  same_eq a b h = k.order_eq a b (is_eq-eq (k.order a b) h)

  pub same-false : (a b : K) → same a b ≡ false → ¬ (a ≡ b)
  same-false a b h e = ground (arith, k.order_refl a)

  pub same_comm : (a b : K) → same a b ≡ same b a
  same_comm a b = ground (arith, k.order_eq a b, k.order_eq b a, k.order_refl a, k.order_refl b)

  -- `BTreeSet::insert`, `contains` and `extend`.
  unfoldable pub insert_key : K → List K → List K
  insert_key a [] = a ∷ []
  insert_key a (b ∷ s) =
      let rest = insert_key a s in
      elim (k.order a b) [ Ordering.lt ↦ a ∷ b ∷ s | Ordering.eq ↦ b ∷ s | Ordering.gt ↦ b ∷ rest ]

  unfoldable pub contains : K → List K → Bool
  contains a [] = false
  contains a (b ∷ s) = same a b || contains a s

module _ {K : Type 0} ⦃k : Key K⦄ where
  unfoldable pub extend : List K → List K → List K
  unfolding insert_key
  extend [] s = s
  extend (a ∷ more) s = extend more (insert_key a s)

  pub insert_key-All :
      (P : K → Type 0) (a : K) (s : List K) → P a → All P s → All P (insert_key a s)
  unfolding insert_key
  insert_key-All P a [] p h = (p, tt)
  insert_key-All P a (b ∷ s) p h = elim (order-cases (k.order a b)) [
    | inl lt ↦ rw (lt, insert_key) (p, h)
    | inr (inl eq) ↦ rw (eq, insert_key) h
    | inr (inr gt) ↦ rw (gt, insert_key) (h.0, insert_key-All P a s p h.1)
  ]

  pub extend-All : (P : K → Type 0) (more s : List K) → All P more → All P s → All P (extend more s)
  unfolding extend
  extend-All P [] s m h = h
  extend-All P (a ∷ more) s m h =
      extend-All P more (insert_key a s) m.1 (insert_key-All P a s m.0 h)

  pub contains-insert_key :
      (a b : K) (s : List K) → contains b (insert_key a s) ≡ (same b a || contains b s)
  unfolding contains insert_key
  contains-insert_key a b [] = refl
  contains-insert_key a b (c ∷ s) = ground (
    arith,
    contains-insert_key a b s,
    k.order_eq a c,
    k.order_eq b a,
    k.order_eq b c,
    k.order_refl b,
  )

module _ {K V : Type 0} ⦃k : Key K⦄ where
  unfoldable pub lookup : K → List (K × V) → Option V
  lookup a [] = none
  lookup a ((b, v) ∷ m) = if same a b then some v else lookup a m

  -- `BTreeMap::insert`; the previous value is `lookup` before it.
  unfoldable pub insert : K → V → List (K × V) → List (K × V)
  insert a v [] = (a, v) ∷ []
  insert a v ((b, w) ∷ m) =
      let rest = insert a v m in
      elim (k.order a b) [
        | Ordering.lt ↦ (a, v) ∷ (b, w) ∷ m
        | Ordering.eq ↦ (b, v) ∷ m
        | Ordering.gt ↦ (b, w) ∷ rest
      ]

  pub lookup-insert :
      (a b : K) (v : V) (m : List (K × V))
      → lookup b (insert a v m) ≡ (if same b a then some v else lookup b m)
  unfolding lookup insert
  lookup-insert a b v [] = refl
  lookup-insert a b v ((c, w) ∷ m) =
      ground (
        arith,
        lookup-insert a b v m,
        k.order_eq a c,
        k.order_eq b a,
        k.order_eq b c,
        k.order_refl b,
      )

  pub lookup-insert_self : (a : K) (v : V) (m : List (K × V)) → lookup a (insert a v m) ≡ some v
  lookup-insert_self a v m = rw (lookup-insert a a v m, same_refl a) refl

  abbrev pub keys : List (K × V) → List K
  keys [] = []
  keys ((a, v) ∷ m) = a ∷ keys m

  abbrev pub values : List (K × V) → List V
  values [] = []
  values ((a, v) ∷ m) = v ∷ values m

  -- `BTreeMap::remove`.
  unfoldable pub remove_key : K → List (K × V) → List (K × V)
  remove_key a [] = []
  remove_key a ((b, w) ∷ m) = let rest = remove_key a m in if same a b then m else (b, w) ∷ rest

  -- A write through `BTreeMap::get_mut`.
  unfoldable pub replace : K → V → List (K × V) → List (K × V)
  replace a v [] = []
  replace a v ((b, w) ∷ m) =
      let rest = replace a v m in if same a b then (b, v) ∷ m else (b, w) ∷ rest

  pub keys-replace : (a : K) (v : V) (m : List (K × V)) → keys (replace a v m) ≡ keys m
  unfolding replace
  keys-replace a v [] = refl
  keys-replace a v ((b, w) ∷ m) = ground (arith, keys-replace a v m)

  pub lookup-replace :
      (a b : K) (v w : V) (m : List (K × V))
      → lookup a m ≡ some w
      → lookup b (replace a v m) ≡ (if same b a then some v else lookup b m)
  unfolding lookup replace
  lookup-replace a b v w [] h = cc
  lookup-replace a b v w ((c, x) ∷ m) h = ground (
    arith,
    lookup-replace a b v w m,
    k.order_eq a c,
    k.order_eq b a,
    k.order_eq b c,
    k.order_refl b,
  )

-- Predicates over the values.
module _ {K V : Type 0} ⦃k : Key K⦄ (Q : V → Type 0) where
  abbrev pub AllValues : List (K × V) → Type 0
  AllValues = All λ entry. Q entry.1

  pub lookup-AllValues :
      (a : K) {v : V} (m : List (K × V)) → AllValues m → lookup a m ≡ some v → Q v
  unfolding lookup
  lookup-AllValues a [] all h = cc
  lookup-AllValues a {v} ((b, w) ∷ m) all h = elim (Bool-cases (same a b)) [
    | inl here ↦ subst Q (some-injective w v (rw here at h)) all.0
    | inr there ↦ lookup-AllValues a m all.1 (rw there at h)
  ]

  pub insert-AllValues :
      (a : K) (v : V) (m : List (K × V)) → Q v → AllValues m → AllValues (insert a v m)
  unfolding insert
  insert-AllValues a v [] q all = (q, tt)
  insert-AllValues a v ((b, w) ∷ m) q all = elim (order-cases (k.order a b)) [
    | inl lt ↦ rw (lt, insert) (q, all)
    | inr (inl eq) ↦ rw (eq, insert) (q, all.1)
    | inr (inr gt) ↦ rw (gt, insert) (all.0, insert-AllValues a v m q all.1)
  ]
