-- ===== src/Peer/Apply/Lives.antt =====
-- The log served by one process after another on one database: a process that is started again has what
-- the earlier ones left, and is delivered the log from its first entry on.
use mathlib.Core.List.{IsPrefix, flatten, append_assoc}
use mathlib.Core.Path.{subst}
use jkv.Base.{
  returned-injective, ◌≡◌, refl, sym, ap, ◌∙◌, ◌⊎◌, inl, inr, List, [], ◌∷◌, ◌++◌, All, returned,
  ◌>>=◌, arith, >>=-eq-returned,
}
use jkv.Proto.{Entry}
use jkv.Env.{Env}
use jkv.Storage.View.{Map}
use jkv.Peer.Apply.Machine.{serve_entries, serve_entries-append}
use jkv.Peer.Apply.Replay.{
  empty_map, IsLeftBy, or_false, writes-append, serve_entries_unwritten, serve_entries-again,
}

-- Of two beginnings of a list, one begins the other.
IsPrefix-cases {ℓ} :
    {A : Type ℓ} (es fs a b : List A) → es ++ a ≡ fs ++ b → IsPrefix es fs ⊎ IsPrefix fs es
IsPrefix-cases [] fs a b h = inl (fs, refl)
IsPrefix-cases (e ∷ es) [] a b h = inr (e ∷ es, refl)
IsPrefix-cases (e ∷ es) (f ∷ fs) a b h =
    let same : e ≡ f = ground arith in
    let rest : es ++ a ≡ fs ++ b = ground arith in
    elim (IsPrefix-cases es fs a b rest) [
      | inl (r, cut) ↦ inl (r, ap (λ x. x ∷ es ++ r) same ∙ ap (◌∷◌ f) cut)
      | inr (r, cut) ↦ inr (r, ap (λ x. x ∷ fs ++ r) (sym same) ∙ ap (◌∷◌ e) cut)
    ]

module _ (env : Env) where
  -- What follows a served beginning is served alike on the empty map and on what earlier runs left.
  from_empty :
      (es fs : List Entry) (m n m' : Map)
      → IsLeftBy env es m
      → serve_entries env es (empty_map env) ≡ returned n
      → serve_entries env (es ++ fs) m ≡ returned m'
      → serve_entries env (es ++ fs) (empty_map env) ≡ returned m'
  from_empty es fs m n m' left ran h =
      serve_entries-append env es fs (empty_map env)
      ∙ ap (λ o. o >>= serve_entries env fs) (ran ∙ sym (serve_entries-again env es m n left ran))
      ∙ sym (serve_entries-append env es fs m)
      ∙ h

  lives :
      (ls : List (List Entry)) (log es rest : List Entry) (m n m' : Map)
      → log ≡ es ++ rest
      → IsLeftBy env es m
      → serve_entries env es (empty_map env) ≡ returned n
      → All (λ l. IsPrefix l log) ls
      → serve_entries env (flatten ls ++ log) m ≡ returned m'
      → serve_entries env log (empty_map env) ≡ returned m'
  unfolding flatten
  lives [] log es rest m n m' cut left ran all h =
      ap (λ l. serve_entries env l (empty_map env)) cut
      ∙ from_empty es rest m n m' left ran (ap (λ l. serve_entries env l m) (sym cut) ∙ h)
  lives (l ∷ ls) log es rest m n m' cut left ran all h =
      let (m1, first, later) = >>=-eq-returned (serve_entries env l m) _ (
        sym (serve_entries-append env l (flatten ls ++ log) m)
        ∙ ap (λ x. serve_entries env x m) (sym (append_assoc l (flatten ls) log))
        ∙ h) in
      elim (IsPrefix-cases l es all.0.0 rest (all.0.1 ∙ cut)) [
        | inl (f, short) ↦
            lives ls log es rest m1 n m' cut
              (λ k w.
                let (early, _) = or_false (sym (writes-append env l f k) ∙ rw (← short) at w) in
                serve_entries_unwritten env l m m1 k early first ∙ left k w)
              ran all.1 later
        | inr (f, long) ↦
            let again : serve_entries env l (empty_map env) ≡ returned m1 =
              ap (λ x. serve_entries env x (empty_map env)) (sym long)
              ∙ from_empty es f m n m1 left ran (ap (λ x. serve_entries env x m) long ∙ first) in
            lives ls log l all.0.0 m1 m1 m' (sym all.0.1)
              (λ k w. serve_entries_unwritten env l (empty_map env) m1 k w again) again all.1 later
      ]

  -- What processes leave that stopped somewhere in the log.
  pub flatten-IsLeftBy :
      (ls : List (List Entry)) (log : List Entry) (a m : Map)
      → All (λ l. IsPrefix l log) ls
      → IsLeftBy env log a
      → serve_entries env (flatten ls) a ≡ returned m
      → IsLeftBy env log m
  unfolding flatten
  flatten-IsLeftBy [] log a m all left h = subst (IsLeftBy env log) (returned-injective h) left
  flatten-IsLeftBy (l ∷ ls) log a m all left h =
      let (a1, first, later) =
        >>=-eq-returned (serve_entries env l a) _
          (sym (serve_entries-append env l (flatten ls) a) ∙ h) in
      flatten-IsLeftBy ls log a1 m all.1
        (λ k w.
          let (early, _) = or_false (sym (writes-append env l all.0.0 k) ∙ rw (← all.0.1) at w) in
          serve_entries_unwritten env l a a1 k early first ∙ left k w)
        later

  -- When the log has been served by any number of processes that stopped somewhere in it, each one on the
  -- map that the one before it left and the first one on the empty map, and then by one that came to its
  -- end, the map is the one that serving the log once on the empty map gives.
  pub serve_entries-lives :
      (ls : List (List Entry)) (log : List Entry) (m : Map)
      → All (λ l. IsPrefix l log) ls
      → serve_entries env (flatten ls ++ log) (empty_map env) ≡ returned m
      → serve_entries env log (empty_map env) ≡ returned m
  serve_entries-lives ls log m all h =
      lives ls log [] log (empty_map env) (empty_map env) m refl (λ k w. refl) refl all h
