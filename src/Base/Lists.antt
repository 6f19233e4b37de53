-- ===== src/Base/Lists.antt =====
-- Lists measured and counted by native numbers, byte strings and their equality.
use Prim.Native.Nat.{ℕ, suc, ◌+◌}
use mathlib.Core.Path.{◌≡◌, refl}
use mathlib.Core.Logic.{◌↔◌, ◌≢◌, inl, inr}
use mathlib.Core.Option.{Option, none, some}
use mathlib.Core.Bool.{Bool, true, false, ◌&&◌}
use mathlib.Core.List.{List, [], ◌∷◌, ◌++◌}
use native.Mathlib.Omega.{arith}
use jkv.Base.Tests.{◌==◌, if◌then◌else◌, Bool-cases}

module _ {ℓ} {A : Type ℓ} where
  abbrev pub length : List A → ℕ
  length [] = 0
  length (x ∷ xs) = suc (length xs)

  pub length-append : (xs ys : List A) → length (xs ++ ys) ≡ length xs + length ys
  length-append [] ys = omega arith
  length-append (x ∷ xs) ys = omega (arith, length-append xs ys)

module _ {ℓ} {A : Type ℓ} where
  -- The members that pass a test, in order.
  abbrev pub filter : (A → Bool) → List A → List A
  filter f [] = []
  filter f (x ∷ xs) = if f x then x ∷ filter f xs else filter f xs

  -- The first member that passes a test.
  abbrev pub find_first : (A → Bool) → List A → Option A
  find_first f [] = none
  find_first f (x ∷ xs) = if f x then some x else find_first f xs

-- A predicate on every member, by recursion.
abbrev pub All {ℓ κ} : {A : Type ℓ} → (A → Type κ) → List A → Type κ
All P [] = Unit
All P (x ∷ xs) = P x × All P xs

module _ {ℓ} {A : Type ℓ} where
  pub All-map {κ μ} :
      {P : A → Type κ} {Q : A → Type μ} (xs : List A) → ((x : A) → P x → Q x) → All P xs → All Q xs
  All-map [] f h = tt
  All-map (x ∷ xs) f h = (f x h.0, All-map xs f h.1)

  pub All-append {κ} : (P : A → Type κ) (xs ys : List A) → All P xs → All P ys → All P (xs ++ ys)
  All-append P [] ys hx hy = hy
  All-append P (x ∷ xs) ys hx hy = (hx.0, All-append P xs ys hx.1 hy)

  pub All-middle {κ} :
      (P : A → Type κ) (xs : List A) (y : A) (ys : List A) → All P (xs ++ y ∷ ys) → P y
  All-middle P [] y ys h = h.0
  All-middle P (x ∷ xs) y ys h = All-middle P xs y ys h.1

  pub All-filter {κ} :
      (P : A → Type κ) (f : A → Bool) (xs : List A) → All P xs → All P (filter f xs)
  All-filter P f [] h = tt
  All-filter P f (x ∷ xs) h = elim (Bool-cases (f x)) [
    | inl e ↦ rw e (h.0, All-filter P f xs h.1)
    | inr e ↦ rw e (All-filter P f xs h.1)
  ]

  pub filter-All : (f : A → Bool) (xs : List A) → All (λ x. f x ≡ true) xs → filter f xs ≡ xs
  filter-All f [] h = refl
  filter-All f (x ∷ xs) h = rw (h.0, filter-All f xs h.1)

  pub filter-none : (f : A → Bool) (xs : List A) → All (λ x. f x ≡ false) xs → filter f xs ≡ []
  filter-none f [] h = refl
  filter-none f (x ∷ xs) h = rw (h.0, filter-none f xs h.1)

  pub find_first-none :
      (f : A → Bool) (xs : List A) → All (λ x. f x ≡ false) xs → find_first f xs ≡ none
  find_first-none f [] h = refl
  find_first-none f (x ∷ xs) h = rw (h.0, find_first-none f xs h.1)

-- How often a number stands in a list.
abbrev pub count : ℕ → List ℕ → ℕ
count d [] = 0
count d (c ∷ cs) = (if d == c then 1 else 0) + count d cs

pub count-append : (d : ℕ) (cs es : List ℕ) → count d (cs ++ es) ≡ count d cs + count d es
count-append d [] es = omega arith
count-append d (c ∷ cs) es = let rest = count-append d cs es in omega arith

-- `std::string`, `bytes`: the byte values.
abbrev pub Bytes : Type 0
Bytes = List ℕ

abbrev pub bytes_eq : Bytes → Bytes → Bool
bytes_eq [] [] = true
bytes_eq [] (y ∷ ys) = false
bytes_eq (x ∷ xs) [] = false
bytes_eq (x ∷ xs) (y ∷ ys) = (x == y) && bytes_eq xs ys

abbrev pub is_empty {ℓ} : {A : Type ℓ} → List A → Bool
is_empty [] = true
is_empty (x ∷ xs) = false

pub bytes_eq_iff : (a b : Bytes) → (bytes_eq a b ≡ true) ↔ (a ≡ b)
bytes_eq_iff [] [] = ((λ _. refl), (λ _. refl))
bytes_eq_iff [] (y ∷ ys) = ((λ h. cc), (λ h. cc))
bytes_eq_iff (x ∷ xs) [] = ((λ h. cc), (λ h. cc))
bytes_eq_iff (x ∷ xs) (y ∷ ys) = ground (arith, bytes_eq_iff xs ys)

pub bytes_eq_refl : (a : Bytes) → bytes_eq a a ≡ true
bytes_eq_refl a = (bytes_eq_iff a a).1 refl

pub is_empty-false {ℓ} : {A : Type ℓ} (xs : List A) → is_empty xs ≡ false → xs ≢ []
is_empty-false [] h = cc
is_empty-false (x ∷ xs) h = λ e. cc

pub ne-is_empty {ℓ} : {A : Type ℓ} (xs : List A) → xs ≢ [] → is_empty xs ≡ false
ne-is_empty [] h = absurd (h refl)
ne-is_empty (x ∷ xs) h = refl
