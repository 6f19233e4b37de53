-- ===== src/Base/Sizes.antt =====
-- A table whose keys are different and all stand in another one has at most as many entries.
use Prim.Native.Nat.{ℕ, ◌+◌, ◌≤◌}
use mathlib.Core.Path.{◌≡◌, refl, sym, ◌∙◌}
use mathlib.Core.Logic.{inl, inr}
use mathlib.Core.Bool.{true, false}
use mathlib.Core.Option.{none-ne-some, none, some}
use mathlib.Core.List.{[], ◌∷◌}
use native.Mathlib.Omega.{arith}
use jkv.Base.Tests.{◌==◌, if◌then◌else◌, Bool-cases}
use jkv.Base.Lists.{length}
use jkv.Base.Tables.{Table, find, assign, find-assign}

module _ {ℓ} {W : Type ℓ} where
  -- `m.erase(k)`
  abbrev pub erase : ℕ → Table W → Table W
  erase k [] = []
  erase k ((j, w) ∷ n) = if j == k then erase k n else (j, w) ∷ erase k n

  pub find-erase : (k j : ℕ) (n : Table W) → (j == k) ≡ false → find j (erase k n) ≡ find j n
  find-erase k j [] ne = refl
  find-erase k j ((i, w) ∷ n) ne = ground (arith, find-erase k j n ne)

  pub find-erase-same : (k j : ℕ) (n : Table W) → (j == k) ≡ true → find j (erase k n) ≡ none
  find-erase-same k j [] e = refl
  find-erase-same k j ((i, w) ∷ n) e = ground (arith, find-erase-same k j n e)

  -- What is found after that was there before, under another key.
  pub find-erase-some :
      (k j : ℕ) (w : W) (n : Table W) → find j (erase k n) ≡ some w → find j n ≡ some w
  find-erase-some k j w n at = elim (Bool-cases (j == k)) [
    | inl e ↦ absurd (none-ne-some w (sym (find-erase-same k j n e) ∙ at))
    | inr e ↦ sym (find-erase k j n e) ∙ at
  ]

  -- It is not the key that has gone.
  pub find-erase-ne :
      (k j : ℕ) (w : W) (n : Table W) → find j (erase k n) ≡ some w → (k == j) ≡ false
  find-erase-ne k j w n at = elim (Bool-cases (k == j)) [
    | inr other ↦ other
    | inl same ↦
        let one : (j == k) ≡ true = ground arith in
        absurd (none-ne-some w (sym (find-erase-same k j n one) ∙ at))
  ]

  length-erase_le : (k : ℕ) (n : Table W) → length (erase k n) ≤ length n
  length-erase_le k [] = omega arith
  length-erase_le k ((j, w) ∷ n) = ground (arith, length-erase_le k n)

  length-erase :
      (k : ℕ) (w : W) (n : Table W) → find k n ≡ some w → length (erase k n) + 1 ≤ length n
  length-erase k w [] at = absurd (cc)
  length-erase k w ((j, u) ∷ n) at = elim (Bool-cases (j == k)) [
    | inl e ↦ let le = length-erase_le k n in rw e (omega (arith, le))
    | inr e ↦ let le = length-erase k w n (rw e at at) in rw e (omega (arith, le))
  ]

module _ {ℓ} {V W : Type ℓ} where
  -- The keys of the first table are different and are found in the second one.
  abbrev pub AreKeysOf : Table W → Table V → Type ℓ
  AreKeysOf n [] = Unit {ℓ}
  AreKeysOf n ((k, v) ∷ m) = (find k m ≡ none) × ((w : W) × (find k n ≡ some w)) × AreKeysOf n m

  pub assign-AreKeysOf :
      (n : Table W) (k : ℕ) (v : V) (w : W) (m : Table V)
      → find k n ≡ some w
      → AreKeysOf n m
      → AreKeysOf n (assign k v m)
  assign-AreKeysOf n k v w [] at h = (refl, (w, at), tt)
  assign-AreKeysOf n k v w ((j, u) ∷ m) at h = elim (Bool-cases (j == k)) [
    | inl e ↦ let one : j ≡ k = ground arith in rw (e, ← one) h
    | inr e ↦
        let other : (k == j) ≡ false = ground arith in
        rw e (rw (find-assign k j v m, other) h.0, h.1, assign-AreKeysOf n k v w m at h.2)
  ]

  AreKeysOf-erase :
      (k : ℕ) (n : Table W) (m : Table V)
      → find k m ≡ none
      → AreKeysOf n m
      → AreKeysOf (erase k n) m
  AreKeysOf-erase k n [] ne h = tt
  AreKeysOf-erase k n ((j, v) ∷ m) ne h = elim (Bool-cases (j == k)) [
    | inl e ↦ absurd (cc (rw e at ne))
    | inr e ↦ (h.0, (h.1.0, rw (find-erase k j n e) h.1.1), AreKeysOf-erase k n m (rw e at ne) h.2)
  ]

  pub length-AreKeysOf : (n : Table W) (m : Table V) → AreKeysOf n m → length m ≤ length n
  length-AreKeysOf n [] h = omega arith
  length-AreKeysOf n ((k, v) ∷ m) h =
      let rest = length-AreKeysOf (erase k n) m (AreKeysOf-erase k n m h.0 h.2) in
      let less = length-erase k h.1.0 n h.1.1 in omega (arith, rest, less)
