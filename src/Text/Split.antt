-- ===== src/Text/Split.antt =====
-- `boost::split(pieces, s, boost::is_any_of("c"))`, a parameter with its documented behaviour: the
-- pieces between the separators, adjacent separators kept apart, one empty piece for an empty text.
use jkv.Base.{
  ℕ, ◌≡◌, ◌≢◌, refl, sym, ap, ◌∙◌, inl, inr, false, Bool-cases, List, [], ◌∷◌, ◌++◌, arith, count,
  All, ◌==◌, if◌then◌else◌, Bytes,
}

-- The pieces with the separator between them.
abbrev pub join : ℕ → List Bytes → Bytes
join c [] = []
join c (p ∷ []) = p
join c (p ∷ q ∷ ps) = p ++ c ∷ join c (q ∷ ps)

-- The separator does not stand in a piece.
abbrev pub IsFree : ℕ → Bytes → Type 0
IsFree c p = count c p ≡ 0

pub record SplitLaws (split : ℕ → Bytes → List Bytes) : Type 0 where
  pub pieces_free : (c : ℕ) (s : Bytes) → All (IsFree c) (split c s)
  pub join-split : (c : ℕ) (s : Bytes) → join c (split c s) ≡ s
  pub split-ne-nil : (c : ℕ) (s : Bytes) → split c s ≢ []

abbrev grow : ℕ → List Bytes → List Bytes
grow x [] = (x ∷ []) ∷ []
grow x (p ∷ ps) = (x ∷ p) ∷ ps

-- The same by recursion on the text.
unfoldable pub pieces : ℕ → Bytes → List Bytes
pieces c [] = [] ∷ []
pieces c (x ∷ s) = let rest = pieces c s in if c == x then [] ∷ rest else grow x rest

pieces_free_text : (c : ℕ) (p : Bytes) → IsFree c p → pieces c p ≡ p ∷ []
unfolding pieces
pieces_free_text c [] h = refl
pieces_free_text c (x ∷ p) h = ground (arith, pieces_free_text c p)

pieces-append : (c : ℕ) (p r : Bytes) → IsFree c p → pieces c (p ++ c ∷ r) ≡ p ∷ pieces c r
unfolding pieces
pieces-append c [] r h = ground arith
pieces-append c (x ∷ p) r h = ground (arith, pieces-append c p r)

pieces-join : (c : ℕ) (ps : List Bytes) → ps ≢ [] → All (IsFree c) ps → pieces c (join c ps) ≡ ps
pieces-join c [] ne h = absurd (ne refl)
pieces-join c (p ∷ []) ne h = pieces_free_text c p h.0
pieces-join c (p ∷ q ∷ ps) ne h =
    pieces-append c p (join c (q ∷ ps)) h.0 ∙ ap (◌∷◌ p) (pieces-join c (q ∷ ps) (λ e. cc) h.1)

grow-ne-nil : (x : ℕ) (ps : List Bytes) → grow x ps ≢ []
grow-ne-nil x [] = λ e. cc
grow-ne-nil x (p ∷ ps) = λ e. cc

pieces-ne-nil : (c : ℕ) (s : Bytes) → pieces c s ≢ []
unfolding pieces
pieces-ne-nil c [] = λ e. cc
pieces-ne-nil c (x ∷ s) = elim (Bool-cases (c == x)) [
  | inl e ↦ rw e (λ z. cc)
  | inr e ↦ rw e (grow-ne-nil x (pieces c s))
]

grow-IsFree :
    (c x : ℕ) (ps : List Bytes) → (c == x) ≡ false → All (IsFree c) ps → All (IsFree c) (grow x ps)
grow-IsFree c x [] ne h = (rw ne refl, tt)
grow-IsFree c x (p ∷ ps) ne h = (rw ne (omega (arith, h.0)), h.1)

pieces-IsFree : (c : ℕ) (s : Bytes) → All (IsFree c) (pieces c s)
unfolding pieces
pieces-IsFree c [] = (refl, tt)
pieces-IsFree c (x ∷ s) = elim (Bool-cases (c == x)) [
  | inl e ↦ rw e (refl, pieces-IsFree c s)
  | inr e ↦ rw e (grow-IsFree c x (pieces c s) e (pieces-IsFree c s))
]

join-grow : (c x : ℕ) (ps : List Bytes) → ps ≢ [] → join c (grow x ps) ≡ x ∷ join c ps
join-grow c x [] ne = absurd (ne refl)
join-grow c x (p ∷ []) ne = refl
join-grow c x (p ∷ q ∷ ps) ne = refl

join-empty : (c : ℕ) (ps : List Bytes) → ps ≢ [] → join c ([] ∷ ps) ≡ c ∷ join c ps
join-empty c [] ne = absurd (ne refl)
join-empty c (p ∷ ps) ne = refl

join-pieces : (c : ℕ) (s : Bytes) → join c (pieces c s) ≡ s
unfolding pieces
join-pieces c [] = refl
join-pieces c (x ∷ s) = elim (Bool-cases (c == x)) [
  | inl e ↦
      let same : c ≡ x = ground arith in
      rw e (
        join-empty c (pieces c s) (pieces-ne-nil c s)
        ∙ ap (◌∷◌ c) (join-pieces c s)
        ∙ ap (λ y. y ∷ s) same)
  | inr e ↦ rw e (join-grow c x (pieces c s) (pieces-ne-nil c s) ∙ ap (◌∷◌ x) (join-pieces c s))
]

-- The function keeps the laws.
pub pieces-SplitLaws : SplitLaws pieces
pieces-SplitLaws = record {
  pieces_free = pieces-IsFree;
  join-split = join-pieces;
  split-ne-nil = pieces-ne-nil;
}

module _ (split : ℕ → Bytes → List Bytes) (laws : SplitLaws split) where
  -- The laws leave one function.
  split-pieces : (c : ℕ) (s : Bytes) → split c s ≡ pieces c s
  split-pieces c s =
      sym (pieces-join c (split c s) (laws.split-ne-nil c s) (laws.pieces_free c s))
      ∙ ap (pieces c) (laws.join-split c s)

  -- Splitting what was joined gives the pieces back.
  pub split-join :
      (c : ℕ) (ps : List Bytes) → ps ≢ [] → All (IsFree c) ps → split c (join c ps) ≡ ps
  split-join c ps ne h = split-pieces c (join c ps) ∙ pieces-join c ps ne h
