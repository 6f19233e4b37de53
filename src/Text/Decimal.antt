-- ===== src/Text/Decimal.antt =====
-- `std::to_string` of an unsigned number below 10^20, which every `uint64_t` is.
use jkv.Base.{
  ℕ, zero, suc, ◌+◌, ◌-◌, ◌*◌, ◌/◌, ◌%◌, ◌^◌, ◌<◌, ◌≤◌, ◌≡◌, ◌≢◌, refl, ap, ◌∙◌, true, inl, inr,
  Bool-cases, [], ◌∷◌, arith, All, Bytes, ltb, leb, ◌&&◌, Bool, if◌then◌else◌, count,
}
use native.Mathlib.Nat.{pow-suc}

-- The last digit first, for as many digits as there is fuel.
pub digits : ℕ → ℕ → Bytes → Bytes
digits zero n out = out
digits (suc f) n out =
    let out' = (b'0' + n % 10) ∷ out in
    let rest = digits f (n / 10) out' in if ltb n 10 then out' else rest

unfoldable pub to_string : ℕ → Bytes
unfolding digits
to_string n = digits 20 n []

abbrev pub is_digit : ℕ → Bool
is_digit c = leb b'0' c && leb c b'9'

abbrev pub IsDigit : ℕ → Type 0
IsDigit c = (b'0' ≤ c) × (c ≤ b'9')

-- The number that the digits at the front of a text spell behind `n`.
unfoldable pub value : ℕ → Bytes → ℕ
value n [] = n
value n (c ∷ s) = let rest = value (n * 10 + (c - b'0')) s in if is_digit c then rest else n

value_digit : (n d : ℕ) (out : Bytes) → d < 10 → value n ((b'0' + d) ∷ out) ≡ value (n * 10 + d) out
unfolding value
value_digit n d out h =
    let test : is_digit (b'0' + d) ≡ true = ground arith in
    rw test (ap (λ m. value (n * 10 + m) out) (omega arith))

value-digits : (f n : ℕ) (out : Bytes) → n < 10 ^ f → value 0 (digits f n out) ≡ value n out
unfolding digits
value-digits zero n out h = let e : 0 ≡ n = omega arith in ap (λ m. value m out) e
value-digits (suc f) n out h = elim (Bool-cases (ltb n 10)) [
  | inl small ↦
      rw small (value_digit 0 (n % 10) out (omega arith) ∙ ap (λ m. value m out) (ground arith))
  | inr large ↦ rw large (
      value-digits f (n / 10) ((b'0' + n % 10) ∷ out) (omega (arith, pow-suc 10 f))
      ∙ value_digit (n / 10) (n % 10) out (omega arith)
      ∙ ap (λ m. value m out) (omega arith))
]

digits-IsDigit : (f n : ℕ) (out : Bytes) → All IsDigit out → All IsDigit (digits f n out)
unfolding digits
digits-IsDigit zero n out h = h
digits-IsDigit (suc f) n out h = ground (arith, digits-IsDigit f (n / 10) ((b'0' + n % 10) ∷ out))

-- Reading a printed number gives the number.
pub value-to_string : (n : ℕ) → n < 10 ^ 20 → value 0 (to_string n) ≡ n
unfolding to_string value
value-to_string n h = value-digits 20 n [] h

pub to_string-IsDigit : (n : ℕ) → All IsDigit (to_string n)
unfolding to_string
to_string-IsDigit n = digits-IsDigit 20 n [] tt

digits-ne-nil : (f n : ℕ) (out : Bytes) → out ≢ [] → digits f n out ≢ []
unfolding digits
digits-ne-nil zero n out h = h
digits-ne-nil (suc f) n out h = elim (Bool-cases (ltb n 10)) [
  | inl small ↦ rw small (λ e. cc)
  | inr large ↦ rw large (digits-ne-nil f (n / 10) ((b'0' + n % 10) ∷ out) (λ e. cc))
]

pub to_string-ne-nil : (n : ℕ) → to_string n ≢ []
unfolding to_string digits
to_string-ne-nil n = elim (Bool-cases (ltb n 10)) [
  | inl small ↦ rw small (λ e. cc)
  | inr large ↦ rw large (digits-ne-nil 19 (n / 10) ((b'0' + n % 10) ∷ []) (λ e. cc))
]

-- No digit is a separator.
pub count-digits : (c : ℕ) (s : Bytes) → b'9' < c → All IsDigit s → count c s ≡ 0
count-digits c [] h a = refl
count-digits c (x ∷ s) h a = ground (arith, count-digits c s h a.1)

pub count_low-digits : (c : ℕ) (s : Bytes) → c < b'0' → All IsDigit s → count c s ≡ 0
count_low-digits c [] h a = refl
count_low-digits c (x ∷ s) h a = ground (arith, count_low-digits c s h a.1)
