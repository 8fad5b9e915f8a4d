-- ===== src/Slave/Serve/Accept.antt =====
-- MeterSlave::tcpClientHandler: the loop that accepts clients.
use fronius_bridge.Prelude.{
  ◌≡◌, refl, ap, ℕ, Bool, true, false, List, [], ◌∷◌, ◌++◌, if-elim, if◌then◌else◌, All,
}
use fronius_bridge.Modbus.{Errno}
use fronius_bridge.Slave.Serve.{is_interrupted}

-- What `accept` returns: the client's socket, or errno and the running flag after it.
pub data Accepted : Type 0 where
  client : (socket : ℕ) → Accepted
  refused : Errno → (is_running : Bool) → Accepted

-- What `poll` returns, and then its events: whether a client waits, and whether the socket has an error.
pub data Polled : Type 0 where
  poll_failed : Errno → Polled
  poll_timeout : Polled
  poll_ready : (is_broken : Bool) → Polled
  poll_client : Accepted → (is_broken : Bool) → Polled

pub record AcceptTurn : Type 0 where
  pub is_running : Bool
  pub polled : Polled

pub data AcceptEnded : Type 0 where
  waiting stopped interrupted socket_error : AcceptEnded
  poll_error : Errno → AcceptEnded

-- The clients for which a thread has been started, oldest first.
pub record Handled : Type 0 where
  pub ended : AcceptEnded
  pub clients : List ℕ

pub data AcceptNext : Type 0 where
  go_on : List ℕ → AcceptNext
  leave : AcceptEnded → List ℕ → AcceptNext

abbrev pub check_socket : (is_broken : Bool) → List ℕ → AcceptNext
check_socket true clients = leave socket_error clients
check_socket false clients = go_on clients

-- A client that cannot be accepted is logged, and the loop goes on without a look at the socket's error.
abbrev pub on_accept : Accepted → (is_broken : Bool) → AcceptNext
on_accept (client socket) is_broken = check_socket is_broken (socket ∷ [])
on_accept (refused e is_running) is_broken =
    if is_interrupted e then (if is_running then go_on [] else leave interrupted []) else go_on []

abbrev pub on_poll : Polled → AcceptNext
on_poll (poll_failed e) = if is_interrupted e then go_on [] else leave (poll_error e) []
on_poll poll_timeout = go_on []
on_poll (poll_ready is_broken) = check_socket is_broken []
on_poll (poll_client a is_broken) = on_accept a is_broken

unfoldable pub accept_next_of : AcceptTurn → AcceptNext
accept_next_of t = if t.is_running then on_poll t.polled else leave stopped []

abbrev pub accept_next : (rest : Handled) → AcceptNext → Handled
accept_next rest (leave e clients) = record { ended = e; clients = clients }
accept_next rest (go_on clients) = record { ended = rest.ended; clients = clients ++ rest.clients }

unfoldable pub accept_loop : List AcceptTurn → Handled
unfolding accept_next_of
accept_loop [] = record { ended = waiting; clients = [] }
accept_loop (t ∷ ts) = let rest = accept_loop ts in accept_next rest (accept_next_of t)

-- The sockets that `accept` returns in the turns.
abbrev pub accepted : Polled → List ℕ
accepted (poll_client (client socket) is_broken) = socket ∷ []
accepted (poll_client (refused e is_running) is_broken) = []
accepted (poll_failed e) = []
accepted poll_timeout = []
accepted (poll_ready is_broken) = []

abbrev pub sockets : List AcceptTurn → List ℕ
sockets [] = []
sockets (t ∷ ts) = accepted t.polled ++ sockets ts

-- A turn in which the server socket is sound. Nothing is asked of the errno of a failed `accept`.
abbrev pub Sound : Polled → Type 0
Sound (poll_failed e) = is_interrupted e ≡ true
Sound poll_timeout = Unit
Sound (poll_ready is_broken) = is_broken ≡ false
Sound (poll_client (client socket) is_broken) = is_broken ≡ false
Sound (poll_client (refused e is_running) is_broken) = is_running ≡ true

abbrev pub IsSoundTurn : AcceptTurn → Type 0
IsSoundTurn t = (t.is_running ≡ true) × Sound t.polled

Sound-next : (p : Polled) → Sound p → on_poll p ≡ go_on (accepted p)
Sound-next (poll_failed e) h = rw h refl
Sound-next poll_timeout h = refl
Sound-next (poll_ready is_broken) h = rw h refl
Sound-next (poll_client (client socket) is_broken) h = rw h refl
Sound-next (poll_client (refused e is_running) is_broken) h =
    rw h (if-elim (λ n. n ≡ go_on []) (is_interrupted e) refl refl)

-- While the server socket is sound, the accept loop goes on, also when a client cannot be accepted, and every
-- client that was accepted has its own thread, in the order of arrival.
pub accept_loop-sockets :
    (ts : List AcceptTurn)
    → All IsSoundTurn ts
    → ((accept_loop ts).ended ≡ waiting) × ((accept_loop ts).clients ≡ sockets ts)
unfolding accept_loop accept_next_of
accept_loop-sockets [] h = (refl, refl)
accept_loop-sockets (t ∷ ts) ((run, sound), more) =
    let (x, y) = accept_loop-sockets ts more in
    rw (run, Sound-next t.polled sound) (x, ap (λ l. accepted t.polled ++ l) y)
