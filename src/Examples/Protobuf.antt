-- ===== src/Examples/Protobuf.antt =====
-- A codec: the number of the request's type, then the length and the bytes of each string.
use jkv.Base.{ℕ, zero, suc, ◌≡◌, refl, ap, Option, none, some, [], ◌∷◌, ◌++◌, arith, Bytes, length}
use jkv.Proto.{KvReq, CmdType, empty_req}
use jkv.Proto.Codec.{Codec}

abbrev take : ℕ → Bytes → Bytes
take zero xs = []
take (suc n) [] = []
take (suc n) (x ∷ xs) = x ∷ take n xs

abbrev drop : ℕ → Bytes → Bytes
drop zero xs = xs
drop (suc n) [] = []
drop (suc n) (x ∷ xs) = drop n xs

take-append : (s r : Bytes) → take (length s) (s ++ r) ≡ s
take-append [] r = refl
take-append (x ∷ s) r = ap (◌∷◌ x) (take-append s r)

drop-append : (s r : Bytes) → drop (length s) (s ++ r) ≡ r
drop-append [] r = refl
drop-append (x ∷ s) r = drop-append s r

abbrev write_text : Bytes → Bytes → Bytes
write_text s r = length s ∷ s ++ r

abbrev read_text : Bytes → Option (Bytes × Bytes)
read_text [] = none
read_text (n ∷ r) = some (take n r, drop n r)

read_text-write_text : (s r : Bytes) → read_text (write_text s r) ≡ some (s, r)
read_text-write_text s r = rw (take-append s r, drop-append s r)

abbrev to_number : CmdType → ℕ
to_number CmdType.invalid = 0
to_number CmdType.get = 1
to_number CmdType.put = 2
to_number CmdType.del = 3
to_number (CmdType.unknown n) = suc (suc (suc (suc n)))

abbrev from_number : ℕ → CmdType
from_number zero = CmdType.invalid
from_number (suc zero) = CmdType.get
from_number (suc (suc zero)) = CmdType.put
from_number (suc (suc (suc zero))) = CmdType.del
from_number (suc (suc (suc (suc n)))) = CmdType.unknown n

from_number-to_number : (t : CmdType) → from_number (to_number t) ≡ t
from_number-to_number CmdType.invalid = refl
from_number-to_number CmdType.get = refl
from_number-to_number CmdType.put = refl
from_number-to_number CmdType.del = refl
from_number-to_number (CmdType.unknown n) = refl

abbrev encode : KvReq → Bytes
encode q =
    to_number q.cmd_type
    ∷ write_text q.get_req.key
        (write_text q.put_req.key (write_text q.put_req.value (write_text q.del_req.key [])))

infixl 5 ◌>>=◌
abbrev ◌>>=◌ {ℓ κ} : {A : Type ℓ} {B : Type κ} → Option A → (A → Option B) → Option B
none >>= f = none
some a >>= f = f a

abbrev decode_from : CmdType → Bytes → Option KvReq
decode_from t s = do
  (k, s1) ← read_text s
  (pk, s2) ← read_text s1
  (pv, s3) ← read_text s2
  (dk, s4) ← read_text s3
  some (record {
    cmd_type = t;
    get_req = record { key = k };
    put_req = record { key = pk; value = pv };
    del_req = record { key = dk };
  })

abbrev decode : Bytes → Option KvReq
decode [] = some empty_req
decode (n ∷ s) = decode_from (from_number n) s

decode-encode : (q : KvReq) → decode (encode q) ≡ some q
decode-encode q = rw (
  from_number-to_number,
  take-append q.get_req.key _,
  drop-append q.get_req.key _,
  take-append q.put_req.key _,
  drop-append q.put_req.key _,
  take-append q.put_req.value _,
  drop-append q.put_req.value _,
  take-append q.del_req.key _,
)

pub decode_of-encode : (r : KvReq) (s : Bytes) → some (encode r) ≡ some s → decode s ≡ some r
decode_of-encode r s h = let e : encode r ≡ s = ground arith in rw (← e) (decode-encode r)

abbrev pub texts_codec : Codec
texts_codec = record {
  serialize = λ r. some (encode r);
  parse = decode;
  parse-serialize = decode_of-encode;
  parse-empty = refl;
}
