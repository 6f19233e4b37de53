-- ===== src/Base/Tables.antt =====
-- `std::unordered_map` with integer keys, as an association list in order of insertion.
use Prim.Native.Nat.{ℕ}
use mathlib.Core.Path.{◌≡◌, refl, ap, sym, ◌∙◌}
use mathlib.Core.Bool.{false}
use mathlib.Core.Option.{Option, none, some}
use mathlib.Core.List.{List, [], ◌∷◌, ◌++◌}
use native.Mathlib.Omega.{arith}
use jkv.Base.Tests.{◌==◌, if◌then◌else◌}
use mathlib.Core.Path.{subst}
use mathlib.Core.Logic.{inl, inr}
use jkv.Base.Tests.{Bool-cases}
use jkv.Base.Lists.{count}

abbrev pub Table {ℓ} : Type ℓ → Type ℓ
Table V = List (ℕ × V)

abbrev pub keys {ℓ} : {V : Type ℓ} → Table V → List ℕ
keys [] = []
keys ((j, v) ∷ m) = j ∷ keys m

module _ {ℓ} {V : Type ℓ} where
  -- `m.find(k)`; `none` is `m.end()`
  abbrev pub find : ℕ → Table V → Option V
  find k [] = none
  find k ((j, v) ∷ m) = if j == k then some v else find k m

  -- `m[k] = v`
  abbrev pub assign : ℕ → V → Table V → Table V
  assign k v [] = (k, v) ∷ []
  assign k v ((j, w) ∷ m) = if j == k then (k, v) ∷ m else (j, w) ∷ assign k v m

  pub find-assign :
      (k j : ℕ) (v : V) (m : Table V)
      → find j (assign k v m) ≡ (if k == j then some v else find j m)
  find-assign k j v [] = refl
  find-assign k j v ((i, w) ∷ m) = ground (arith, find-assign k j v m)

  -- `m.insert({k, v})`, which leaves an entry that is there alone
  abbrev pub insert : ℕ → V → Table V → Table V
  insert k v [] = (k, v) ∷ []
  insert k v ((j, w) ∷ m) = if j == k then (j, w) ∷ m else (j, w) ∷ insert k v m

  pub insert-new : (k : ℕ) (v : V) (m : Table V) → find k m ≡ none → insert k v m ≡ m ++ (k, v) ∷ []
  insert-new k v [] h = refl
  insert-new k v ((j, w) ∷ m) h = ground (arith, insert-new k v m)

  pub keys-append : (m n : Table V) → keys (m ++ n) ≡ keys m ++ keys n
  keys-append [] n = refl
  keys-append ((j, v) ∷ m) n = ap (◌∷◌ j) (keys-append m n)

  -- A key is in the table exactly if `find` finds it.
  pub find-none-count : (k : ℕ) (m : Table V) → find k m ≡ none → count k (keys m) ≡ 0
  find-none-count k [] h = refl
  find-none-count k ((j, v) ∷ m) h = ground (arith, find-none-count k m)

module _ {ℓ κ} {V : Type ℓ} (P : V → Type κ) where
  -- Every value of the table has the property.
  abbrev pub AllIn : Table V → Type κ
  AllIn [] = Unit {κ}
  AllIn ((j, v) ∷ m) = P v × AllIn m

  pub find-AllIn : (k : ℕ) (v : V) (m : Table V) → AllIn m → find k m ≡ some v → P v
  find-AllIn k v [] h at = absurd (cc)
  find-AllIn k v ((j, w) ∷ m) h at = elim (Bool-cases (j == k)) [
    | inl e ↦ let same : w ≡ v = ground (arith, rw e at at) in subst P same h.0
    | inr e ↦ find-AllIn k v m h.1 (rw e at at)
  ]

  pub assign-AllIn : (k : ℕ) (v : V) (m : Table V) → P v → AllIn m → AllIn (assign k v m)
  assign-AllIn k v [] p h = (p, tt)
  assign-AllIn k v ((j, w) ∷ m) p h = elim (Bool-cases (j == k)) [
    | inl e ↦ rw e (p, h.1)
    | inr e ↦ rw e (h.0, assign-AllIn k v m p h.1)
  ]

module _ {ℓ κ} {V : Type ℓ} (P : ℕ → V → Type κ) where
  -- What `find` finds has the property, with its key.
  abbrev pub Every : Table V → Type (ℓ ⊔ κ)
  Every m = (k : ℕ) (v : V) → find k m ≡ some v → P k v

  pub assign-Every_others :
      (k : ℕ) (v : V) (m : Table V)
      → P k v
      → ((j : ℕ) (w : V) → (k == j) ≡ false → find j m ≡ some w → P j w)
      → Every (assign k v m)
  assign-Every_others k v m p h j w at =
      let at1 = sym (find-assign k j v m) ∙ at in
      elim (Bool-cases (k == j)) [
        | inl e ↦
            let same : v ≡ w = ground (arith, rw e at at1) in
            let one : k ≡ j = ground arith in subst (λ i. P i w) one (subst (P k) same p)
        | inr e ↦ h j w e (rw e at at1)
      ]

  pub assign-Every : (k : ℕ) (v : V) (m : Table V) → P k v → Every m → Every (assign k v m)
  assign-Every k v m p h = assign-Every_others k v m p (λ j w ne. h j w)
