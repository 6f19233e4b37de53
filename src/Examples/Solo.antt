-- ===== src/Examples/Solo.antt =====
-- A raft node of one voter, which commits what it takes.
use jkv.Base.{
  ℕ, ◌+◌, ◌^◌, ◌<◌, ◌≤◌, ◌≡◌, ◌⊎◌, Bool, true, false, List, [], ◌∷◌, ◌++◌, All, All-map, length,
  length-append, inl, inr, arith, Bytes, ltb, is_empty, refl, ◌&&◌, if◌then◌else◌,
}
use jkv.Proto.{ErrNum, ok, proposal_dropped, Entry, entry_normal, Message, Snapshot}
use jkv.Env.{Raft}
use jkv.Peer.Propose.Queue.{LeaderAppendOnly}
use jkv.Peer.Propose.Backed.{LogMatching}
use mathlib.Core.Path.{subst}

-- `stable` entries have been handed over; the bytes of those that wait for the next `Ready`, and the
-- messages that do.
pub record Solo : Type 0 where
  pub leads : Bool
  pub term : ℕ
  pub stable : ℕ
  pub fresh : List Bytes
  pub outbox : List Message

abbrev pub last : Solo → ℕ
last n = n.stable + length n.fresh

abbrev numbered : ℕ → ℕ → List Bytes → List Entry
numbered t i [] = []
numbered t i (s ∷ ss) =
    record { type = entry_normal; term = t; index = i; payload = s } ∷ numbered t (i + 1) ss

abbrev take_request : Solo → Bytes → ErrNum × Solo
take_request n s =
    if n.leads && ltb (last n + 2) (2 ^ 64)
    then (ok, record n { fresh = n.fresh ++ s ∷ [] })
    else (proposal_dropped, n)

abbrev no_snapshot_yet : Snapshot
no_snapshot_yet = record {
  payload = [];
  metadata = record {
    conf_state = record {
      voters = [];
      learners = [];
      voters_outgoing = [];
      learners_next = [];
      auto_leave = false;
    };
    index = 0;
    term = 0;
  };
}

abbrev pub solo_raft : Raft
solo_raft = record {
  Node = Solo;
  Ready = List Entry × List Message;
  Storage = Snapshot;
  get_snapshot = λ s. (ok, s);
  put_snapshot = λ s t. t;
  validate = λ c. c;
  raw_node = λ c s. record { leads = true; term = 1; stable = 0; fresh = []; outbox = [] };
  is_leader = λ n. n.leads;
  term = λ n. n.term;
  last_index = last;
  tick = λ n. n;
  step = λ n m. (ok, n);
  propose = take_request;
  has_ready = λ n. if is_empty n.fresh && is_empty n.outbox then false else true;
  get_ready = λ n. (
    (numbered n.term (n.stable + 1) n.fresh, n.outbox),
    record n { stable = last n; fresh = []; outbox = [] },
  );
  entries = λ rd. rd.0;
  messages = λ rd. rd.1;
  committed_entries = λ rd. rd.0;
  append = λ n es. n;
  advance = λ n rd. n;
}

-- A place in the log is the node's own if it is in an older term or within the log.
abbrev pub Within : Solo → ℕ → ℕ → Type 0
Within n t i = (t < n.term) ⊎ ((t ≡ n.term) × (i ≤ last n))

-- What waits for the next `Ready` at index `i` is `s`.
abbrev Waits : Solo → ℕ → Bytes → Type 0
Waits n i s =
    All (λ (e : Entry). e.index ≡ i → e.payload ≡ s) (numbered n.term (n.stable + 1) n.fresh)

abbrev pub Holds : Solo → ℕ → ℕ → Bytes → Type 0
Holds n t i s = (t < n.term) ⊎ ((t ≡ n.term) × (i ≤ last n) × Waits n i s)

take_request_ind :
    (P : ErrNum × Solo → Type 0) (n : Solo) (b : Bytes)
    → P (ok, record n { fresh = n.fresh ++ b ∷ [] })
    → P (proposal_dropped, n)
    → P (take_request n b)
take_request_ind P n b takes drops =
    elim (n.leads && ltb (last n + 2) (2 ^ 64))
      as (λ c.
        P (if c then (ok, record n { fresh = n.fresh ++ b ∷ [] }) else (proposal_dropped, n))) [
          | true ↦ takes
          | false ↦ drops
        ]

own_take_request : (n : Solo) (s : Bytes) (t i : ℕ) → Within n t i → Within (take_request n s).1 t i
own_take_request n s t i h =
    take_request_ind (λ r. Within r.1 t i) n s (rw (length-append n.fresh (s ∷ [])) (ground arith))
      h

own_fresh :
    (n : Solo) (s : Bytes)
    → n.leads ≡ true
    → (take_request n s).0 ≡ ok
    → Within (take_request n s).1 n.term (last n + 1)
own_fresh n s leads took =
    take_request_ind (λ r. r.0 ≡ ok → Within r.1 n.term (last n + 1)) n s
      (λ e. inr (refl, rw (length-append n.fresh (s ∷ [])) (omega arith))) (λ e. ground arith) took

stable_last :
    (n : Solo) (t i : ℕ)
    → Within n t i
    → Within (record n { stable = last n; fresh = []; outbox = [] }) t i
stable_last n t i h = ground arith

pub solo_raft-LeaderAppendOnly : LeaderAppendOnly solo_raft
solo_raft-LeaderAppendOnly = record {
  Sound = λ n m. Unit {0};
  Own = Within;
  own_bound = λ n t i h. h;
  own_tick = λ n t i h. h;
  own_step = λ n m sound t i h. h;
  own_propose = own_take_request;
  own_get_ready = λ n t i h. stable_last n t i h;
  own_append = λ n es t i h. h;
  own_advance = λ n rd t i h. h;
  own_new = own_fresh;
}

numbered-append :
    (P : Entry → Type 0) (t k : ℕ) (ss : List Bytes) (s : Bytes)
    → All P (numbered t k ss)
    → P (record { type = entry_normal; term = t; index = k + length ss; payload = s })
    → All P (numbered t k (ss ++ s ∷ []))
numbered-append P t k [] s h p =
    let same : k + 0 ≡ k = omega arith in
    (subst (λ j. P (record { type = entry_normal; term = t; index = j; payload = s })) same p, tt)
numbered-append P t k (x ∷ ss) s h p =
    let same : k + length (x ∷ ss) ≡ k + 1 + length ss = omega arith in
    (
      h.0,
      numbered-append P t (k + 1) ss s h.1 (
          subst (λ j. P (record { type = entry_normal; term = t; index = j; payload = s })) same p),
    )

-- The entries that wait are of the current term and within the log.
numbered-All :
    (t k : ℕ) (ss : List Bytes)
    → All (λ (e : Entry). (e.term ≡ t) × (e.index < k + length ss)) (numbered t k ss)
numbered-All t k [] = tt
numbered-All t k (s ∷ ss) = (
  (refl, omega arith),
  All-map (numbered t (k + 1) ss) (λ e p. (p.0, omega arith)) (numbered-All t (k + 1) ss),
)

pub Holds-take_request :
    (n : Solo) (b : Bytes) (t i : ℕ) (s : Bytes) → Holds n t i s → Holds (take_request n b).1 t i s
Holds-take_request n b t i s h =
    take_request_ind (λ r. Holds r.1 t i s) n b
      (elim h [
        | inl older ↦ inl older
        | inr (same, le, waits) ↦ inr (
          same,
          rw (length-append n.fresh (b ∷ [])) (omega arith),
          numbered-append (λ e. e.index ≡ i → e.payload ≡ s) n.term (n.stable + 1) n.fresh b waits
              (λ e. ground arith),
        )
      ])
      h

pub Holds-fresh :
    (n : Solo) (s : Bytes)
    → n.leads ≡ true
    → (take_request n s).0 ≡ ok
    → Holds (take_request n s).1 n.term (last n + 1) s
Holds-fresh n s leads took =
    take_request_ind (λ r. r.0 ≡ ok → Holds r.1 n.term (last n + 1) s) n s
      (λ e. inr (
        refl,
        rw (length-append n.fresh (s ∷ [])) (omega arith),
        numbered-append (λ e. e.index ≡ last n + 1 → e.payload ≡ s) n.term (n.stable + 1) n.fresh s
            (All-map (numbered n.term (n.stable + 1) n.fresh) (λ e p same. ground arith)
              (numbered-All n.term (n.stable + 1) n.fresh))
            (λ e. refl),
      ))
      (λ e. ground arith) took

pub Holds-committed :
    (n : Solo) (t i : ℕ) (s : Bytes)
    → Holds n t i s
    → All
        (λ (e : Entry). e.term ≡ t → e.index ≡ i → e.payload ≡ s)
        (numbered n.term (n.stable + 1) n.fresh)
Holds-committed n t i s (inl older) =
    All-map (numbered n.term (n.stable + 1) n.fresh) (λ e p same. ground arith)
      (numbered-All n.term (n.stable + 1) n.fresh)
Holds-committed n t i s (inr (same, le, waits)) =
    All-map (numbered n.term (n.stable + 1) n.fresh) (λ e p term. p) waits

pub Holds-get_ready :
    (n : Solo) (t i : ℕ) (s : Bytes)
    → Holds n t i s
    → Holds (record n { stable = last n; fresh = []; outbox = [] }) t i s
Holds-get_ready n t i s (inl older) = inl older
Holds-get_ready n t i s (inr (same, le, waits)) = inr (same, omega arith, tt)

pub solo_raft-LogMatching : LogMatching solo_raft
solo_raft-LogMatching = record {
  Sound = λ n m. Unit {0};
  Put = Holds;
  put_tick = λ n t i s h. h;
  put_step = λ n m sound t i s h. h;
  put_propose = Holds-take_request;
  put_get_ready = λ n t i s h. Holds-get_ready n t i s h;
  put_append = λ n es t i s h. h;
  put_advance = λ n rd t i s h. h;
  put_new = Holds-fresh;
  put_committed = Holds-committed;
}
