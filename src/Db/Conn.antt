-- ===== src/Db/Conn.antt =====
-- `pg::Conn` and `pg::Transaction` of src/pg.cpp. The server and libpq are a parameter: its answer to
-- a statement may depend on all that was sent before. A connection is the list of
-- what was sent, the last first.
pub mod Sends
pub mod Atomicity
use fronius_bridge.Prelude.{
  ℕ, ◌+◌, ◌≤◌, ◌≡◌, Bool, true, false, Option, none, some, List, [], ◌∷◌, ℤ, pos, String, Result,
  ok, err,
}
use fronius_bridge.Db.Errors.{Kind, protocol, DbError, make, make_with_state}

-- A cell of a result: SQL NULL, or a number. libpq's text format of a number is not modelled.
abbrev pub Cell : Type 0
Cell = Option ℤ

-- What PQexec and the status functions of libpq report for one statement.
pub data Reply : Type 0 where
  completed : List (List Cell) → Reply
  link_dropped : Reply
  failed : (sqlstate : Option String) → Reply

-- PQtransactionStatus
pub data TxStatus : Type 0 where
  idle active in_trans in_error unknown : TxStatus

pub data Command (S : Type 0) : Type 0 where
  -- PQconnectdb: `completed` means that the connection is open
  connect_db : Command S
  begin_tx commit_tx rollback_tx : Command S
  statement : S → Command S

pub record Server (S : Type 0) : Type 0 where
  pub reply : List (Command S) → Command S → Reply
  pub tx_status : List (Command S) → TxStatus
  -- Whether the server has carried out a COMMIT, after so much was sent, the answer to which was lost.
  pub unseen_commit : List (Command S) → Bool

-- `fromFailedResult` and the success case of `Conn::exec`, `Conn::execParams`.
abbrev pub result_of : Kind → Reply → Result DbError (List (List Cell))
result_of k (completed rows) = ok rows
result_of k link_dropped = err (make protocol)
result_of k (failed none) = err (make k)
result_of k (failed (some s)) = err (make_with_state k s)

-- `Result::empty`, and `isNull(0, 0)` and `asInt(0, 0)` of a result with a row.
abbrev pub is_empty : List (List Cell) → Bool
is_empty [] = true
is_empty (r ∷ rs) = false

abbrev pub first_cell : List (List Cell) → Cell
first_cell ((c ∷ cs) ∷ rs) = c
first_cell _ = none

abbrev pub as_int : Cell → ℤ
as_int none = pos 0
as_int (some n) = n

-- Work on a connection: what was sent before, and after it with the result.
abbrev pub Work : Type 0 → Type 0 → Type 0
Work S A = List (Command S) → List (Command S) × Result DbError A

infixl 5 ◌>>=◌ ◌>>◌
abbrev pub ◌>>=◌ : {S A B : Type 0} → Work S A → (A → Work S B) → Work S B
◌>>=◌ m f sent = let (sent', r) = m sent in elim r [ ok a ↦ f a sent' | err e ↦ (sent', err e) ]

abbrev pub ◌>>◌ : {S B : Type 0} → Work S (Unit {0}) → Work S B → Work S B
m >> k = m >>= λ _. k

abbrev pub return : {S A : Type 0} → A → Work S A
return a sent = (sent, ok a)

abbrev pub fail : {S A : Type 0} → DbError → Work S A
fail e sent = (sent, err e)

abbrev pub gain : {A : Type 0} → Result DbError A → ℕ
gain (ok a) = 1
gain (err e) = 0

module _ {S : Type 0} (srv : Server S) where
  -- `Conn::exec`, `Conn::execParams`
  unfoldable pub send : Kind → Command S → Work S (List (List Cell))
  send k c sent = (c ∷ sent, result_of k (srv.reply sent c))

  -- A statement of which only the success matters.
  unfoldable pub exec : Kind → S → Work S (Unit {0})
  unfolding send
  exec k s = do _ ← send k (statement s); return tt

  -- The destructor of `Transaction`: the result of ROLLBACK is ignored.
  unfoldable pub close_tx : List (Command S) → List (Command S)
  close_tx sent = elim (srv.tx_status sent) [
    | in_trans ↦ rollback_tx ∷ sent
    | in_error ↦ rollback_tx ∷ sent
    | _ ↦ sent
  ]

  -- `Transaction::begin`, then the rest of the scope, then the destructor.
  unfoldable pub in_transaction : {A : Type 0} → Kind → Work S A → Work S A
  unfolding send close_tx
  in_transaction k body = do
    _ ← send k begin_tx
    λ sent. let (sent', r) = body sent in (close_tx sent', r)

  -- `Transaction::commit`
  unfoldable pub commit : Kind → Work S (Unit {0})
  unfolding send
  commit k = do _ ← send k commit_tx; return tt

  abbrev count_if : Bool → ℕ
  count_if true = 1
  count_if false = 0

  abbrev completes : List (Command S) → Command S → Reply → ℕ
  completes sent commit_tx (completed rows) = 1
  completes sent commit_tx link_dropped = count_if (srv.unseen_commit sent)
  completes sent _ _ = 0

  -- How many transactions the server has committed, whether the program has seen it or not.
  unfoldable pub commits : List (Command S) → ℕ
  commits [] = 0
  commits (c ∷ sent) = completes sent c (srv.reply sent c) + commits sent

  abbrev is_doubt : Command S → Reply → ℕ
  is_doubt commit_tx link_dropped = 1
  is_doubt _ _ = 0

  -- How often the link was lost at a COMMIT.
  unfoldable pub doubts : List (Command S) → ℕ
  doubts [] = 0
  doubts (c ∷ sent) = is_doubt c (srv.reply sent c) + doubts sent

  -- The work commits nothing,
  unfoldable pub Silent : {A : Type 0} → Work S A → Type 0
  Silent w =
      (sent : List (Command S))
      → (commits (w sent).0 ≡ commits sent) × (doubts (w sent).0 ≡ doubts sent)

  -- or it commits one transaction if it succeeds, at most one if it fails, and then none unless the link was
  -- lost at the COMMIT.
  unfoldable pub Atomic : {A : Type 0} → Work S A → Type 0
  Atomic w =
      (sent : List (Command S))
      → (gain (w sent).1 + commits sent ≤ commits (w sent).0)
        × (commits (w sent).0 ≤ 1 + commits sent)
        × (commits (w sent).0 + doubts sent ≤ gain (w sent).1 + commits sent + doubts (w sent).0)
