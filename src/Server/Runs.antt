-- ===== src/Server/Runs.antt =====
-- A sequence of inputs and one more.
use mathlib.Core.List.{append_assoc, append-nil}
use jkv.Base.{◌≡◌, refl, sym, ap, ◌∙◌, ℕ, List, [], ◌∷◌, ◌++◌, returned, arith, >>=-eq-returned}
use jkv.Env.{Env}
use jkv.Server.{Server}
use jkv.Server.Inputs.{Input, receive, serve, delivered_by, delivered_in}

module _ (env : Env) where
  served_nothing : (s s1 : Server env) → serve env [] s ≡ returned s1 → s ≡ s1
  unfolding serve
  served_nothing s s1 h = ground arith

  pub serve-last :
      (es : List Input) (e : Input) (s s1 s2 : Server env)
      → serve env es s ≡ returned s1
      → receive env e s1 ≡ returned s2
      → serve env (es ++ e ∷ []) s ≡ returned s2
  unfolding serve
  serve-last [] e s s1 s2 h ran = rw (served_nothing s s1 h, ran) refl
  serve-last (d ∷ es) e s s1 s2 h ran =
      let (s3, first, rest) = >>=-eq-returned (receive env d s) (serve env es) h in
      rw first (serve-last es e s3 s1 s2 rest ran)

  pub delivered_in-last :
      (j : ℕ) (es : List Input) (e : Input) (s s1 s2 : Server env)
      → serve env es s ≡ returned s1
      → receive env e s1 ≡ returned s2
      → delivered_in env j (es ++ e ∷ []) s ≡ delivered_in env j es s ++ delivered_by env j e s1
  unfolding serve delivered_in
  delivered_in-last j [] e s s1 s2 h ran =
      rw (served_nothing s s1 h, ran) (append-nil (delivered_by env j e s1))
  delivered_in-last j (d ∷ es) e s s1 s2 h ran =
      let (s3, first, rest) = >>=-eq-returned (receive env d s) (serve env es) h in
      rw first (
        ap (λ l. delivered_by env j d s ++ l) (delivered_in-last j es e s3 s1 s2 rest ran)
        ∙ sym (
            append_assoc (delivered_by env j d s) (delivered_in env j es s3)
              (delivered_by env j e s1)))
