-- ===== src/Slave/Serve/Sockets.antt =====
-- Which calls release the listening socket and context of a meter slave: the constructor, the handler of the
-- serial line and the destructor. A call is written down with what it is made on.
use fronius_bridge.Prelude.{
  ◌≡◌, ℕ, ◌+◌, Bool, true, false, Option, none, some, List, [], ◌∷◌, ◌++◌, if◌then◌else◌, arith,
}

pub data Call : Type 0 where
  close : (socket : ℕ) → Call
  modbus_free_listener : Call
  modbus_close_listener : Call

-- What `startListener` meets: whether the context is made, and the result of the listening call.
pub record Start : Type 0 where
  pub has_context : Bool
  pub is_listening : Bool

-- The members of a slave that has been constructed, the calls that failed construction makes being made.
pub record Listener : Type 0 where
  pub server_socket : Option ℕ
  pub has_context : Bool

abbrev pub socket_of : (is_tcp : Bool) → (socket : ℕ) → Option ℕ
socket_of true socket = some socket
socket_of false socket = none

-- The constructor: the calls it makes, and the object if it returns. `startListener` releases the context of a
-- listener that does not start and clears the pointer, so that the constructor has nothing left to release.
unfoldable pub construct : (is_tcp : Bool) → (socket : ℕ) → Start → List Call × Option Listener
construct is_tcp socket start =
    if start.has_context
    then (if start.is_listening
        then ([], some (record { server_socket = socket_of is_tcp socket; has_context = true }))
        else (modbus_free_listener ∷ [], none))
    else ([], none)

-- `rtuClientHandler` when the slave id is refused; the pointer is kept.
unfoldable pub serial_release : (is_slave_set : Bool) → List Call
serial_release true = []
serial_release false = modbus_close_listener ∷ modbus_free_listener ∷ []

abbrev pub close_server : Option ℕ → List Call
close_server none = []
close_server (some socket) = close socket ∷ []

unfoldable pub destruct : Listener → List Call
destruct l =
    close_server l.server_socket ++ (if l.has_context then modbus_free_listener ∷ [] else [])

abbrev pub worker_release : (is_tcp is_slave_set : Bool) → List Call
worker_release true is_slave_set = []
worker_release false is_slave_set = serial_release is_slave_set

abbrev pub live : (is_tcp is_slave_set : Bool) → Option Listener → List Call
live is_tcp is_slave_set none = []
live is_tcp is_slave_set (some l) = worker_release is_tcp is_slave_set ++ destruct l

-- The calls on the listening context and socket, from the constructor to the destructor.
unfoldable pub lifetime : (is_tcp is_slave_set : Bool) → (socket : ℕ) → Start → List Call
unfolding construct serial_release destruct
lifetime is_tcp is_slave_set socket start =
    let (calls, made) = construct is_tcp socket start in calls ++ live is_tcp is_slave_set made

abbrev pub frees_by : Call → ℕ
frees_by modbus_free_listener = 1
frees_by (close s) = 0
frees_by modbus_close_listener = 0

abbrev pub frees : List Call → ℕ
frees [] = 0
frees (c ∷ cs) = frees_by c + frees cs

-- From the constructor to the destructor, the listening context is freed never if it was not made, twice on a
-- serial line that starts and whose slave id libmodbus refuses, and else once.
pub lifetime-frees :
    (is_tcp is_slave_set : Bool) (socket : ℕ) (start : Start)
    → frees (lifetime is_tcp is_slave_set socket start) ≡ (
        if start.has_context
        then (if start.is_listening
            then (if is_tcp then 1 else (if is_slave_set then 1 else 2))
            else 1)
        else 0)
unfolding lifetime
lifetime-frees is_tcp is_slave_set socket start = ground arith
