-- ===== src/Db/Conn/Sends.antt =====
-- Which statements successful work has sent. `D` is the type of some of the statements.
use fronius_bridge.Prelude.{
  ◌≡◌, refl, sym, ◌∙◌, ap, List, [], ◌∷◌, ◌++◌, arith, ok, Result-cases, inl, inr,
}
use fronius_bridge.Db.Errors.{Kind}
use fronius_bridge.Db.Conn.{Command, statement, Server, Work, ◌>>=◌, ◌>>◌, return, send, exec}

module _ {S D : Type 0} (ddl : D → S) where
  -- What was sent, after these statements in their order.
  abbrev pub push_all : List D → List (Command S) → List (Command S)
  push_all [] sent = sent
  push_all (d ∷ ds) sent = push_all ds (statement (ddl d) ∷ sent)

pub >>=-ok :
    {S A B : Type 0} (m : Work S A) (f : A → Work S B) (sent : List (Command S)) {b : B}
    → ((m >>= f) sent).1 ≡ ok b
    → (a : A) × ((m sent).1 ≡ ok a) × ((m >>= f) sent ≡ f a (m sent).0)
>>=-ok m f sent h = elim (Result-cases (m sent).1) [
  | inl (a, e) ↦ (a, e, rw (e, ◌>>=◌))
  | inr (x, e) ↦ cc (rw (e, ◌>>=◌) at h)
]

pub push_all-append :
    {S D : Type 0} (ddl : D → S) (ds es : List D) (sent : List (Command S))
    → push_all ddl (ds ++ es) sent ≡ push_all ddl es (push_all ddl ds sent)
push_all-append ddl [] es sent = refl
push_all-append ddl (d ∷ ds) es sent = push_all-append ddl ds es (statement (ddl d) ∷ sent)

module _ {S D : Type 0} (ddl : D → S) where
  -- If the work succeeds, then it has sent these statements.
  unfoldable pub Sends : Work S (Unit {0}) → List D → Type 0
  Sends w ds = (sent : List (Command S)) → (w sent).1 ≡ ok tt → (w sent).0 ≡ push_all ddl ds sent

  pub nothing-Sends : Sends (return tt) []
  unfolding Sends
  nothing-Sends sent e = refl

  pub >>-Sends :
      (m k : Work S (Unit {0})) (ds es : List D)
      → Sends m ds
      → Sends k es
      → Sends (m >> k) (ds ++ es)
  unfolding Sends
  >>-Sends m k ds es h g sent e =
      let (_, f, same) = >>=-ok m (λ _. k) sent e in
      let ended : (k (m sent).0).1 ≡ ok tt = sym (ap (λ p. p.1) same) ∙ e in
      ap (λ p. p.0) same
      ∙ g (m sent).0 ended
      ∙ ap (push_all ddl es) (h sent f)
      ∙ sym (push_all-append ddl ds es sent)

module _ {S D : Type 0} (srv : Server S) (ddl : D → S) where
  pub exec-Sends : (k : Kind) (d : D) → Sends ddl (exec srv k (ddl d)) (d ∷ [])
  unfolding Sends exec send
  exec-Sends k d sent e = ground arith
