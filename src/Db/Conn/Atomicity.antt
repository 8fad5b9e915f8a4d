-- ===== src/Db/Conn/Atomicity.antt =====
-- Work that commits nothing, and work that commits once or fails.
use fronius_bridge.Prelude.{◌≡◌, refl, ◌∙◌, List, ◌∷◌, int_eq, arith, inl, inr, Result-cases}
use fronius_bridge.Db.Errors.{Kind}
use fronius_bridge.Db.Conn.{
  Command, begin_tx, statement, Server, Work, ◌>>=◌, return, send, exec, result_of, close_tx,
  in_transaction, commit, commits, doubts, Silent, Atomic,
}

module _ {S : Type 0} (srv : Server S) where
  pub >>=-Silent :
      {A B : Type 0} (m : Work S A) (f : A → Work S B)
      → Silent srv m
      → ((a : A) → Silent srv (f a))
      → Silent srv (m >>= f)
  unfolding Silent
  >>=-Silent m f h k sent = elim (Result-cases (m sent).1) [
    | inl (a, e) ↦ rw (e, ◌>>=◌) ((k a (m sent).0).0 ∙ (h sent).0, (k a (m sent).0).1 ∙ (h sent).1)
    | inr (x, e) ↦ rw (e, ◌>>=◌) (h sent)
  ]

  pub >>=-Atomic :
      {A B : Type 0} (m : Work S A) (f : A → Work S B)
      → Silent srv m
      → ((a : A) → Atomic srv (f a))
      → Atomic srv (m >>= f)
  unfolding Silent Atomic
  >>=-Atomic m f h k sent = elim (Result-cases (m sent).1) [
    | inl (a, e) ↦ rw (e, ◌>>=◌) (omega (arith, k a (m sent).0, h sent))
    | inr (x, e) ↦ rw (e, ◌>>=◌) (omega (arith, h sent))
  ]

  pub return-Silent : {A : Type 0} (a : A) → Silent srv (return a)
  unfolding Silent
  return-Silent a sent = (refl, refl)

  pub send-Silent : (k : Kind) (s : S) → Silent srv (send srv k (statement s))
  unfolding Silent send commits doubts
  send-Silent k s sent = (omega arith, omega arith)

  pub exec-Silent : (k : Kind) (s : S) → Silent srv (exec srv k s)
  unfolding exec
  exec-Silent k s =
      >>=-Silent (send srv k (statement s)) (λ _. return tt) (send-Silent k s)
        (λ _. return-Silent tt)

  pub commit-Atomic : (k : Kind) → Atomic srv (commit srv k)
  unfolding Atomic commit send commits doubts
  commit-Atomic k sent = ground arith

  close_tx-Silent :
      (sent : List (Command S))
      → (commits srv (close_tx srv sent) ≡ commits srv sent)
        × (doubts srv (close_tx srv sent) ≡ doubts srv sent)
  unfolding close_tx commits doubts
  close_tx-Silent sent = ground arith

  pub in_transaction-Atomic :
      {A : Type 0} (k : Kind) (body : Work S A)
      → Atomic srv body
      → Atomic srv (in_transaction srv k body)
  unfolding Atomic in_transaction send commits doubts
  in_transaction-Atomic k body h sent =
      elim (Result-cases (result_of k (srv.reply sent begin_tx))) [
        | inl (a, e) ↦
            rw (e, in_transaction, ◌>>=◌)
              (omega (arith, close_tx-Silent (body (begin_tx ∷ sent)).0, h (begin_tx ∷ sent)))
        | inr (x, e) ↦ rw (e, in_transaction, ◌>>=◌) (omega arith)
      ]
