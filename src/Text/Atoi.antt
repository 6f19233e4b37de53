-- ===== src/Text/Atoi.antt =====
-- `atoi` of the C standard library, whose result is an `int` of 32 bits, and the conversions of that
-- `int` to `uint64_t` and `uint16_t`.
use jkv.Base.{
  ℕ, zero, suc, ◌-◌, ◌%◌, ◌^◌, ◌<◌, ◌≡◌, ◌≢◌, refl, [], ◌∷◌, arith, All, Bytes, ltb, leb, ◌&&◌,
  ◌||◌, ◌==◌, Bool, if◌then◌else◌, Outcome, returned, fatal, undefined_atoi,
}
use jkv.Text.Decimal.{
  value, to_string, IsDigit, value-to_string, to_string-IsDigit, to_string-ne-nil,
}

-- `negsuc n` is -(n + 1).
pub data ℤ : Type 0 where
  pos : ℕ → ℤ
  negsuc : ℕ → ℤ

-- `isspace` in the C locale
abbrev is_space : ℕ → Bool
is_space c = (c == b' ') || (leb 9 c && leb c 13)

skip_spaces : Bytes → Bytes
skip_spaces [] = []
skip_spaces (c ∷ s) = let rest = skip_spaces s in if is_space c then rest else c ∷ s

-- A value that no `int` holds is undefined behaviour.
abbrev positive : ℕ → Outcome ℤ
positive v = if ltb v (2 ^ 31) then returned (pos v) else fatal undefined_atoi

abbrev negative : ℕ → Outcome ℤ
negative zero = returned (pos 0)
negative (suc v) = if ltb v (2 ^ 31) then returned (negsuc v) else fatal undefined_atoi

signed : Bytes → Outcome ℤ
unfolding value
signed [] = returned (pos 0)
signed (c ∷ s) =
    if c == b'-'
    then negative (value 0 s)
    else (if c == b'+' then positive (value 0 s) else positive (value 0 (c ∷ s)))

unfoldable pub atoi : Bytes → Outcome ℤ
unfolding signed skip_spaces
atoi s = signed (skip_spaces s)

abbrev pub to_uint64 : ℤ → ℕ
to_uint64 (pos n) = n % 2 ^ 64
to_uint64 (negsuc n) = 2 ^ 64 - 1 - n % 2 ^ 64

abbrev pub to_uint16 : ℤ → ℕ
to_uint16 (pos n) = n % 2 ^ 16
to_uint16 (negsuc n) = 2 ^ 16 - 1 - n % 2 ^ 16

atoi_digits :
    (s : Bytes) → s ≢ [] → All IsDigit s → value 0 s < 2 ^ 31 → atoi s ≡ returned (pos (value 0 s))
unfolding atoi
atoi_digits [] ne d h = absurd (ne refl)
atoi_digits (c ∷ s) ne d h = ground arith

-- A printed number that an `int` holds is read back.
pub atoi-to_string : (n : ℕ) → n < 2 ^ 31 → atoi (to_string n) ≡ returned (pos n)
atoi-to_string n h =
    let v = value-to_string n (omega arith) in
    rw v at (atoi_digits (to_string n) (to_string-ne-nil n) (to_string-IsDigit n) (rw v h))
