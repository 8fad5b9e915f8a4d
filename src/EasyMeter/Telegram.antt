-- ===== src/EasyMeter/Telegram.antt =====
-- `EasyMeter::readTelegram`. What happens at each turn of its loop is a parameter: the process may be told
-- to stop, and `read` may fail, time out or give bytes. Bytes are numbers.
pub mod Framing
use fronius_bridge.Prelude.{
  ℕ, suc, ◌≤◌, Bool, true, false, Option, none, some, List, [], ◌∷◌, ◌++◌, nat_beq, ltb,
  if◌then◌else◌, ◌&&◌, ◌||◌, not, Result, ok, err,
}

abbrev pub telegram_size : ℕ
telegram_size = 368

-- `packet` and `packetPos`: what has been collected, the newest byte first, and how much that is.
pub record Frame : Type 0 where
  pub packet : List ℕ
  pub packet_pos : ℕ
  pub message_begin : Bool
  pub telegram_complete : Bool

abbrev pub start : Frame
start = record { packet = []; packet_pos = 0; message_begin = false; telegram_complete = false }

-- `packetPos >= 3 && packet[packetPos - 3] == '!'`
unfoldable pub ends_telegram : List ℕ → Bool
ends_telegram (b ∷ a ∷ c ∷ rest) = nat_beq c b'!'
ends_telegram _ = false

abbrev pub store : ℕ → Frame → Frame
store c f = record f {
  packet = c ∷ f.packet;
  packet_pos = suc f.packet_pos;
  message_begin = true;
  telegram_complete = ends_telegram (c ∷ f.packet);
}

-- The body of the loop over the bytes of one read.
unfoldable pub take_byte : ℕ → Frame → Frame
take_byte c f = if f.message_begin || nat_beq c b'/' then store c f else f

abbrev pub is_open : Frame → Bool
is_open f = ltb f.packet_pos telegram_size && not f.telegram_complete

unfoldable pub take_bytes : List ℕ → Frame → Frame
take_bytes [] f = f
take_bytes (c ∷ cs) f = let next = take_bytes cs (take_byte c f) in if is_open f then next else f

-- One turn of the outer loop.
pub data Turn : Type 0 where
  shutdown read_failed timed_out : Turn
  -- the bytes that `read` gives, at least one
  received : (bytes : ℕ × List ℕ) → Turn

pub data TelegramError : Type 0 where
  interrupted errno timed_out_error out_of_sync not_connected : TelegramError

abbrev pub reverse_onto : List ℕ → List ℕ → List ℕ
reverse_onto [] p = p
reverse_onto (c ∷ cs) p = reverse_onto cs (c ∷ p)

-- The check after the loop, and `telegram_` in the order of arrival.
unfoldable pub finish : Frame → Result TelegramError (List ℕ)
finish f = if ends_telegram f.packet then ok (reverse_onto f.packet []) else err out_of_sync

unfoldable pub turn :
    Turn
    → (Frame → Option (Result TelegramError (List ℕ)))
    → Frame
    → Option (Result TelegramError (List ℕ))
unfolding take_bytes
turn shutdown k f = some (err interrupted)
turn read_failed k f = some (err errno)
turn timed_out k f = some (err timed_out_error)
turn (received (c, cs)) k f = k (take_bytes (c ∷ cs) f)

-- The loop over the turns; none while the loop waits for another.
unfoldable pub read_loop : List Turn → Frame → Option (Result TelegramError (List ℕ))
unfolding finish turn
read_loop [] f = if is_open f then none else some (finish f)
read_loop (t ∷ ts) f =
    let next = turn t (read_loop ts) f in if is_open f then next else some (finish f)

-- `running` and `connected` are tested first: the signal handler's flag, and that the port is open.
unfoldable pub read_telegram :
    (running connected : Bool) → List Turn → Option (Result TelegramError (List ℕ))
unfolding read_loop
read_telegram false connected ts = some (err interrupted)
read_telegram true false ts = some (err not_connected)
read_telegram true true ts = read_loop ts start
