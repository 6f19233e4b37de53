-- ===== src/Base/Aborts.antt =====
-- The outcome of code that may stop the process: `JLOG_FATAL` logs and aborts, so nothing after it
-- runs and the state is gone. The three last faults are undefined behaviour of C++ that the code
-- can reach.
use mathlib.Core.Path.{◌≡◌, refl, ap}
use mathlib.Core.Bool.{Bool, true, false}

pub data Fault : Type 0 where
  -- peer.cc
  no_storage no_snapshot not_serialized not_parsed unknown_cmd : Fault
  invalid_members invalid_member same_host : Fault
  -- peer_host.cc and the services
  peer_existed bad_peer_id other_host connect_failed wrong_host no_peer : Fault
  -- disk_storage.cc; the first is an exception of the file system, which nothing catches
  dirs_failed open_failed get_failed put_failed del_failed : Fault
  -- the echo server's and client's flags and callbacks
  no_host_id no_peer_id no_ip bad_port no_members no_log_level no_host_path : Fault
  no_op_type no_key invalid_type rpc_failed rpc_rejected : Fault
  -- `atoi` of a value that no `int` holds, and a dereferenced `end()` iterator or null pointer,
  -- and an object freed twice
  undefined_atoi bad_iterator freed_twice : Fault

pub data Outcome {ℓ} (A : Type ℓ) : Type ℓ where
  returned : A → Outcome A
  fatal : Fault → Outcome A

infixl 5 ◌>>=◌ ◌>>◌
abbrev pub ◌>>=◌ {ℓ κ} : {A : Type ℓ} {B : Type κ} → Outcome A → (A → Outcome B) → Outcome B
returned a >>= f = f a
fatal e >>= f = fatal e

abbrev pub ◌>>◌ {ℓ} : {B : Type ℓ} → Outcome (Unit {0}) → Outcome B → Outcome B
m >> k = m >>= λ _. k

abbrev value_or {ℓ} : {A : Type ℓ} → A → Outcome A → A
value_or a (returned b) = b
value_or a (fatal e) = a

-- `if (test) JLOG_FATAL << …;`
abbrev pub fatal_if : Bool → Fault → Outcome (Unit {0})
fatal_if true e = fatal e
fatal_if false e = returned tt

pub returned-injective {ℓ} :
    {A : Type ℓ} {a b : A} → ◌≡◌ {A = Outcome A} (returned a) (returned b) → a ≡ b
returned-injective {a = a} e = ap (λ o. value_or a o) e

pub >>=-eq-returned {ℓ κ} :
    {A : Type ℓ} {B : Type κ} (m : Outcome A) (f : A → Outcome B) {b : B}
    → (m >>= f) ≡ returned b
    → (a : A) × (m ≡ returned a) × (f a ≡ returned b)
>>=-eq-returned (returned a) f h = (a, refl, h)
>>=-eq-returned (fatal e) f h = cc

pub fatal_if-passes {ℓ} :
    {B : Type ℓ} (b : Bool) (e : Fault) (k : Outcome B) {x : B}
    → (fatal_if b e >> k) ≡ returned x
    → (b ≡ false) × (k ≡ returned x)
fatal_if-passes true e k h = absurd (cc h)
fatal_if-passes false e k h = (refl, h)

pub fatal_if-false : (b : Bool) (e : Fault) → fatal_if b e ≡ returned tt → b ≡ false
fatal_if-false true e h = absurd (cc h)
fatal_if-false false e h = refl
