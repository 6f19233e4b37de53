-- ===== src/Peer/Apply/Replay.antt =====
-- The log served again over a map that an earlier run of it left: a process that is started again has
-- its database, and an empty raft log that is delivered from the first entry on.
use mathlib.Core.Path.{fun_ext, subst}
use jkv.Base.{
  returned-injective, ◌≡◌, refl, sym, ap, ◌∙◌, ◌++◌, ◌⊎◌, inl, inr, Bool, true, false, ◌||◌, Option,
  none, some, List, [], ◌∷◌, returned, >>=-eq-returned, arith, Bool-cases, Option-cases, Bytes,
  bytes_eq,
}
use jkv.Proto.{KvReq, CmdType, Entry, EntryType, entry_normal, entry_conf_change}
use jkv.Proto.Codec.{Codec}
use jkv.Env.{Env}
use jkv.Storage.View.{Map, update, erase}
use jkv.Peer.Apply.Machine.{serve_req, serve_by_type, serve_entries}

-- Does a request write a key.
abbrev pub writes_req : KvReq → CmdType → Bytes → Bool
writes_req r CmdType.invalid k = false
writes_req r CmdType.get k = false
writes_req r CmdType.put k = bytes_eq r.put_req.key k
writes_req r CmdType.del k = bytes_eq r.del_req.key k
writes_req r (CmdType.unknown n) k = false

abbrev pub writes_parsed : Option KvReq → Bytes → Bool
writes_parsed none k = false
writes_parsed (some r) k = writes_req r r.cmd_type k

abbrev pub writes_entry : Codec → EntryType → Entry → Bytes → Bool
writes_entry codec entry_normal e k = writes_parsed (codec.parse e.payload) k
writes_entry codec entry_conf_change e k = false

-- Does some entry write it.
abbrev pub writes : Codec → List Entry → Bytes → Bool
writes codec [] k = false
writes codec (e ∷ es) k = writes_entry codec e.type e k || writes codec es k

-- At each key the second map is the first one's equal, or the first one has nothing there and the rest
-- of the log writes it.
abbrev pub Ahead : (Bytes → Bool) → Map → Map → Type 0
Ahead later a b = (k : Bytes) → (a k ≡ b k) ⊎ ((a k ≡ none) × (later k ≡ true))

pub or_false : {a b : Bool} → (a || b) ≡ false → (a ≡ false) × (b ≡ false)
or_false h = (ground arith, ground arith)

-- Where a request writes, both maps get the same.
serve_req-Ahead :
    (r : KvReq) (t : CmdType) (later : Bytes → Bool) (a a' b : Map)
    → Ahead (λ k. writes_req r t k || later k) a b
    → serve_req r t a ≡ returned a'
    → (b' : Map) × (serve_req r t b ≡ returned b') × Ahead later a' b'
serve_req-Ahead r CmdType.invalid later a a' b h e =
    let same : a ≡ a' = ground arith in rw (← same) (b, refl, h)
serve_req-Ahead r CmdType.get later a a' b h e =
    let k = r.get_req.key in
    elim (Option-cases (a k)) [
      | inl missing ↦ absurd (cc (rw missing at e))
      | inr (v, there) ↦
          let same : a ≡ a' = ground (arith, rw there at e) in
          let held : b k ≡ some v = ground (arith, h k) in rw (← same, held) (b, refl, h)
    ]
serve_req-Ahead r CmdType.put later a a' b h e =
    let x = r.put_req in
    let same : update a x.key x.value ≡ a' = ground arith in
    rw (← same) (update b x.key x.value, refl, λ k. ground (arith, h k))
serve_req-Ahead r CmdType.del later a a' b h e =
    let x = r.del_req in
    let same : erase a x.key ≡ a' = ground arith in
    rw (← same) (erase b x.key, refl, λ k. ground (arith, h k))
serve_req-Ahead r (CmdType.unknown n) later a a' b h e = absurd (cc)

module _ (env : Env) where
  open env use {codec}

  serve_by_type-Ahead :
      (t : EntryType) (e : Entry) (later : Bytes → Bool) (a a' b : Map)
      → Ahead (λ k. writes_entry codec t e k || later k) a b
      → serve_by_type env t e a ≡ returned a'
      → (b' : Map) × (serve_by_type env t e b ≡ returned b') × Ahead later a' b'
  serve_by_type-Ahead entry_normal e later a a' b h ran =
      elim (Option-cases (codec.parse e.payload)) [
        | inl n ↦ absurd (cc (rw n at ran))
        | inr (r, n) ↦ rw n (serve_req-Ahead r r.cmd_type later a a' b (rw n at h) (rw n at ran))
      ]
  serve_by_type-Ahead entry_conf_change e later a a' b h ran =
      let same : a ≡ a' = ground arith in rw (← same) (b, refl, h)

  -- The maps stay so over the beginning of a log.
  pub serve_entries-Ahead_left :
      (es fs : List Entry) (a a' b : Map)
      → Ahead (writes codec (es ++ fs)) a b
      → serve_entries env es a ≡ returned a'
      → (b' : Map) × (serve_entries env es b ≡ returned b') × Ahead (writes codec fs) a' b'
  serve_entries-Ahead_left [] fs a a' b h ran =
      (b, refl, subst (λ x. Ahead (writes codec fs) x b) (returned-injective ran) h)
  serve_entries-Ahead_left (e ∷ es) fs a a' b h ran =
      let (a1, first, rest) =
        >>=-eq-returned (serve_by_type env e.type e a) (serve_entries env es) ran in
      let (b1, again, ahead) =
        serve_by_type-Ahead e.type e (writes codec (es ++ fs)) a a1 b h first in
      let (b', goes, still) = serve_entries-Ahead_left es fs a1 a' b1 ahead rest in
      (b', rw again goes, still)

  -- Both maps end as one.
  serve_entries-Ahead :
      (es : List Entry) (a a' b : Map)
      → Ahead (writes codec es) a b
      → serve_entries env es a ≡ returned a'
      → serve_entries env es b ≡ returned a'
  serve_entries-Ahead [] a a' b h ran =
      let same : a ≡ b = fun_ext (λ k. ground (arith, h k)) in rw (← same) ran
  serve_entries-Ahead (e ∷ es) a a' b h ran =
      let (a1, first, rest) =
        >>=-eq-returned (serve_by_type env e.type e a) (serve_entries env es) ran in
      let (b1, again, ahead) = serve_by_type-Ahead e.type e (writes codec es) a a1 b h first in
      rw again (serve_entries-Ahead es a1 a' b1 ahead rest)

  pub writes-append :
      (es fs : List Entry) (k : Bytes)
      → writes codec (es ++ fs) k ≡ (writes codec es k || writes codec fs k)
  writes-append [] fs k = refl
  writes-append (e ∷ es) fs k = ground (arith, writes-append es fs k)

  serve_req_unwritten :
      (r : KvReq) (t : CmdType) (m m' : Map) (k : Bytes)
      → writes_req r t k ≡ false
      → serve_req r t m ≡ returned m'
      → m' k ≡ m k
  serve_req_unwritten r CmdType.invalid m m' k w h =
      ap (λ (x : Map). x k) (sym (returned-injective h))
  serve_req_unwritten r CmdType.get m m' k w h = elim (Option-cases (m r.get_req.key)) [
    | inl missing ↦ absurd (cc (rw missing at h))
    | inr (v, there) ↦ ap (λ (x : Map). x k) (sym (returned-injective (rw there at h)))
  ]
  serve_req_unwritten r CmdType.put m m' k w h =
      ap (λ (x : Map). x k) (sym (returned-injective h)) ∙ rw w refl
  serve_req_unwritten r CmdType.del m m' k w h =
      ap (λ (x : Map). x k) (sym (returned-injective h)) ∙ rw w refl
  serve_req_unwritten r (CmdType.unknown n) m m' k w h = absurd (cc)

  serve_by_type_unwritten :
      (t : EntryType) (e : Entry) (m m' : Map) (k : Bytes)
      → writes_entry codec t e k ≡ false
      → serve_by_type env t e m ≡ returned m'
      → m' k ≡ m k
  serve_by_type_unwritten entry_normal e m m' k w h = elim (Option-cases (codec.parse e.payload)) [
    | inl n ↦ absurd (cc (rw n at h))
    | inr (r, n) ↦ serve_req_unwritten r r.cmd_type m m' k (rw n at w) (rw n at h)
  ]
  serve_by_type_unwritten entry_conf_change e m m' k w h =
      ap (λ (x : Map). x k) (sym (returned-injective h))

  -- A key that no entry writes keeps its value.
  pub serve_entries_unwritten :
      (es : List Entry) (m m' : Map) (k : Bytes)
      → writes codec es k ≡ false
      → serve_entries env es m ≡ returned m'
      → m' k ≡ m k
  serve_entries_unwritten [] m m' k w h = ap (λ (x : Map). x k) (sym (returned-injective h))
  serve_entries_unwritten (e ∷ es) m m' k w h =
      let (m1, first, rest) =
        >>=-eq-returned (serve_by_type env e.type e m) (serve_entries env es) h in
      let (now, later) = or_false w in
      serve_entries_unwritten es m1 m' k later rest
      ∙ serve_by_type_unwritten e.type e m m1 k now first

  abbrev pub empty_map : Map
  empty_map k = none

  -- Nothing is bound that the log does not write.
  abbrev pub IsLeftBy : List Entry → Map → Type 0
  IsLeftBy es m = (k : Bytes) → writes codec es k ≡ false → m k ≡ none

  -- The empty map is behind what is left.
  pub IsLeftBy-Ahead :
      (es : List Entry) (m : Map) → IsLeftBy es m → Ahead (writes codec es) empty_map m
  IsLeftBy-Ahead es m left k = elim (Bool-cases (writes codec es k)) [
    | inl w ↦ inr (refl, w)
    | inr u ↦ inl (sym (left k u))
  ]

  -- A log that can be served from the empty map gives the same map from whatever an earlier run of it
  -- may have left.
  pub serve_entries-again :
      (es : List Entry) (m m' : Map)
      → IsLeftBy es m
      → serve_entries env es empty_map ≡ returned m'
      → serve_entries env es m ≡ returned m'
  serve_entries-again es m m' left ran =
      serve_entries-Ahead es empty_map m' m (IsLeftBy-Ahead es m left) ran

  -- What interrupted runs may leave: each one serves a beginning of the log on the map that the one
  -- before it left, the first one on the empty map.
  pub data Left (log : List Entry) : Map → Type 0 where
    new : Left log empty_map
    stopped :
        {a b : Map} (es rest : List Entry)
        → Left log a
        → log ≡ es ++ rest
        → serve_entries env es a ≡ returned b
        → Left log b

  pub Left-IsLeftBy : {log : List Entry} {m : Map} → Left log m → IsLeftBy log m
  Left-IsLeftBy new k w = refl
  Left-IsLeftBy (stopped {a} {b} es rest before cut ran) k w =
      let (early, _) = or_false (sym (writes-append es rest k) ∙ rw cut at w) in
      serve_entries_unwritten es a b k early ran ∙ Left-IsLeftBy before k w
