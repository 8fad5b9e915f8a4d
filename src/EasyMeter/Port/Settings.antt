-- ===== src/EasyMeter/Port/Settings.antt =====
-- That the port gets the line settings of the configuration.
use mathlib.Core.Path.{subst}
use fronius_bridge.Prelude.{
  ℕ, ℤ, pos, ◌≤ℤ◌, ◌≡◌, ◌⊎◌, refl, sym, ap, ◌∙◌, String, Bool, true, false, Option, none, some,
  List, [], ◌∷◌, find, ◌==◌, int_eq, int_beq_iff, nat_beq, nat_beq_iff, All, map, if◌then◌else◌,
  if-elim, if-split, Bool-cases, inl, inr, arith,
}
use fronius_bridge.Config.Types.{ModbusRtuConfig, Parity, no_parity, even, odd}
use fronius_bridge.Config.Parse.{is_supported, among}
use fronius_bridge.Config.Parse.Ranges.{IsRtu}
use fronius_bridge.EasyMeter.Port.{
  Speed, CharSize, b1200, b2400, b4800, b9600, b19200, b38400, b57600, b115200, b230400, b460800,
  cs5, cs6, cs7, cs8, speeds, sizes, baud_to_speed, data_bits_to_flag, Termios, Attempt, PortEvent,
  open_device, close, tcsetattr, tcflush, availability, Connected, connected, interrupted, thrown,
  failed, Tried, line_settings, set_parity, with_attributes, set_up_port, open_port, try_connect,
}

-- The settings read back, each from its flags.
baud_of : Speed → ℤ
baud_of b1200 = pos 1200
baud_of b2400 = pos 2400
baud_of b4800 = pos 4800
baud_of b9600 = pos 9600
baud_of b19200 = pos 19200
baud_of b38400 = pos 38400
baud_of b57600 = pos 57600
baud_of b115200 = pos 115200
baud_of b230400 = pos 230400
baud_of b460800 = pos 460800

bits_of : CharSize → ℤ
bits_of cs5 = pos 5
bits_of cs6 = pos 6
bits_of cs7 = pos 7
bits_of cs8 = pos 8

parity_of : (parenb parodd : Bool) → Parity
parity_of false parodd = no_parity
parity_of true false = even
parity_of true true = odd

stop_bits_of : (cstopb : Bool) → ℤ
stop_bits_of false = pos 1
stop_bits_of true = pos 2

abbrev without : (fd : ℕ) → List ℕ → List ℕ
without fd [] = []
without fd (k ∷ ks) = if nat_beq k fd then ks else k ∷ without fd ks

module _ {O : Type 0} where
  unfoldable pub line_of : Termios O → (device : String) → ModbusRtuConfig
  unfolding baud_of bits_of parity_of stop_bits_of
  line_of t device = record {
    device = device;
    baud = baud_of t.ospeed;
    data_bits = bits_of t.size;
    stop_bits = stop_bits_of t.cstopb;
    parity = parity_of t.parenb t.parodd;
  }

  -- The settings that were applied last.
  abbrev pub settings_of : List (PortEvent O) → Option (Termios O)
  settings_of [] = none
  settings_of (tcsetattr fd t ∷ es) = some t
  settings_of (e ∷ es) = settings_of es

  -- The descriptors that are open after these events, from those that are open before.
  abbrev pub left_open : List (PortEvent O) → List ℕ → List ℕ
  left_open [] held = held
  left_open (open_device fd ∷ es) held = left_open es (fd ∷ held)
  left_open (close fd ∷ es) held = left_open es (without fd held)
  left_open (tcsetattr fd t ∷ es) held = left_open es held
  left_open (tcflush fd ∷ es) held = left_open es held
  left_open (availability s ∷ es) held = left_open es held

module _ {V : Type 0} where
  -- What holds of each entry of a table holds of one that is found.
  found-All :
      (P : ℤ → V → Type 0) (k : ℤ) (v : V) (m : List (ℤ × V))
      → All (λ (e : ℤ × V). P e.0 e.1) m
      → find k m ≡ some v
      → P k v
  unfolding find
  found-All P k v [] all h = absurd (ground arith)
  found-All P k v ((j, w) ∷ m) (p, all) h =
      if-split (λ (o : Option V). o ≡ some v → P k v) (k == j) (some w) (find k m)
        (λ e h. subst2 ((int_beq_iff k j).0 e) h) (λ e h. found-All P k v m all h) h
    where
      some-injective : (x y : V) → Path (Option V) (some x) (some y) → x ≡ y
      some-injective x y h = cc

      subst2 : k ≡ j → Path (Option V) (some w) (some v) → P k v
      subst2 e h = subst (λ x. P x v) (sym e) (subst (P j) (some-injective w v h) p)

  among-found :
      (k : ℤ) (m : List (ℤ × V))
      → among k (map (λ (e : ℤ × V). e.0) m) ≡ true
      → (v : V) × (find k m ≡ some v)
  unfolding find
  among-found k [] h = absurd (ground arith)
  among-found k ((j, w) ∷ m) h = elim (Bool-cases (k == j)) [
    | inl e ↦ (w, ap (λ b. if b then some w else find k m) e)
    | inr e ↦
        let (v, f) = among-found k m (ground (arith, int_beq_iff k j, int_beq_iff j k)) in
        (v, ap (λ b. if b then some w else find k m) e ∙ f)
  ]

-- The parts of the line, read back from the flags that they set.
line_settings-parts :
    {O : Type 0} (device : String) (baud data_bits stop_bits : ℤ) (parity : Parity) (speed : Speed)
    (size : CharSize) (t : Termios O)
    → (stop_bits ≡ pos 1) ⊎ (stop_bits ≡ pos 2)
    → line_of
        (line_settings
          (record {
            device = device;
            baud = baud;
            data_bits = data_bits;
            stop_bits = stop_bits;
            parity = parity;
          })
          speed
          size
          t)
        device
      ≡ record {
        device = device;
        baud = baud_of speed;
        data_bits = bits_of size;
        stop_bits = stop_bits;
        parity = parity;
      }
unfolding line_of line_settings parity_of stop_bits_of
line_settings-parts device baud data_bits stop_bits even speed size t (inl e) = rw e refl
line_settings-parts device baud data_bits stop_bits even speed size t (inr e) = rw e refl
line_settings-parts device baud data_bits stop_bits odd speed size t (inl e) = rw e refl
line_settings-parts device baud data_bits stop_bits odd speed size t (inr e) = rw e refl
line_settings-parts device baud data_bits stop_bits no_parity speed size t (inl e) = rw e refl
line_settings-parts device baud data_bits stop_bits no_parity speed size t (inr e) = rw e refl

stop_bits-cases : (s : ℤ) → pos 1 ≤ℤ s → s ≤ℤ pos 2 → (s ≡ pos 1) ⊎ (s ≡ pos 2)
stop_bits-cases s lo hi = ground arith

speed_lem :
    (rtu : ModbusRtuConfig) → IsRtu (some rtu) → (s : Speed) × (baud_to_speed rtu.baud ≡ some s)
unfolding is_supported baud_to_speed
speed_lem rtu (h, _, _, _, _) = among-found rtu.baud speeds h

bits_among : (d : ℤ) → pos 5 ≤ℤ d → d ≤ℤ pos 8 → among d (pos 5 ∷ pos 6 ∷ pos 7 ∷ pos 8 ∷ []) ≡ true
bits_among d lo hi = ground arith

size_lem :
    (rtu : ModbusRtuConfig)
    → IsRtu (some rtu)
    → (s : CharSize) × (data_bits_to_flag rtu.data_bits ≡ some s)
unfolding data_bits_to_flag
size_lem rtu (_, lo, hi, _, _) = among-found rtu.data_bits sizes (bits_among rtu.data_bits lo hi)

baud-read : (baud : ℤ) (s : Speed) → baud_to_speed baud ≡ some s → baud_of s ≡ baud
unfolding baud_to_speed baud_of
baud-read baud s h =
    found-All (λ k v. baud_of v ≡ k) baud s speeds
      (refl, (refl, (refl, (refl, (refl, (refl, (refl, (refl, (refl, (refl, tt)))))))))) h

bits-read : (d : ℤ) (s : CharSize) → data_bits_to_flag d ≡ some s → bits_of s ≡ d
unfolding data_bits_to_flag bits_of
bits-read d s h = found-All (λ k v. bits_of v ≡ k) d s sizes (refl, (refl, (refl, (refl, tt)))) h

-- How `tryConnect` ends on a port that is closed, by what it returns, from descriptors that are open.
abbrev pub Ends :
    {O : Type 0}
    → ModbusRtuConfig
    → (held : List ℕ) → Connected
    → Option ℕ
    → List (PortEvent O)
    → Type 0
Ends {O} rtu held connected port es =
    (t : Termios O) × (settings_of es ≡ some t)
    × ((fd : ℕ) × (port ≡ some fd) × (left_open es held ≡ fd ∷ []))
    × (line_of t rtu.device ≡ rtu)
    × (t.ispeed ≡ t.ospeed)
Ends {O} rtu held interrupted port es = (port ≡ none) × (left_open es held ≡ [])
Ends {O} rtu held thrown port es = false ≡ true
Ends {O} rtu held (failed what) port es = (port ≡ none) × (left_open es held ≡ [])

fail-closes : (fd : ℕ) → (if nat_beq fd fd then [] else fd ∷ []) ≡ []
fail-closes fd = ground (arith, nat_beq_iff fd fd)

module _ {O : Type 0} (make_raw : Termios O → Termios O) (rtu : ModbusRtuConfig) (cb : Bool)
    (good : IsRtu (some rtu)) where
  abbrev EndsWell : (held : List ℕ) → Tried O → Type 0
  EndsWell held t = Ends rtu held t.result t.port t.events

  settings-line :
      (t : Termios O) (s : Speed) (z : CharSize)
      → baud_to_speed rtu.baud ≡ some s
      → data_bits_to_flag rtu.data_bits ≡ some z
      → line_of (line_settings rtu s z t) rtu.device ≡ rtu
  settings-line t s z hs hz =
      line_settings-parts rtu.device rtu.baud rtu.data_bits rtu.stop_bits rtu.parity s z t
        (stop_bits-cases rtu.stop_bits good.3 good.4)
      ∙ read_back (baud-read rtu.baud s hs) (bits-read rtu.data_bits z hz)
    where
      read_back :
          baud_of s ≡ rtu.baud
          → bits_of z ≡ rtu.data_bits
          → record {
            device = rtu.device;
            baud = baud_of s;
            data_bits = bits_of z;
            stop_bits = rtu.stop_bits;
            parity = rtu.parity;
          }
            ≡ rtu
      read_back e f = rw (e, f) refl

  settings-speeds :
      (s : Speed) (z : CharSize) (t : Termios O)
      → (line_settings rtu s z t).ispeed ≡ (line_settings rtu s z t).ospeed
  unfolding line_settings
  settings-speeds s z t =
      if-elim {A = Termios O} (λ x. x.ispeed ≡ x.ospeed) (rtu.stop_bits == pos 2)
        (same_speeds rtu.parity _ refl) (same_speeds rtu.parity _ refl)
    where
      same_speeds :
          (p : Parity) (x : Termios O)
          → x.ispeed ≡ x.ospeed
          → (set_parity p x).ispeed ≡ (set_parity p x).ospeed
      same_speeds even x e = e
      same_speeds odd x e = e
      same_speeds no_parity x e = e

  attributes-Ends :
      (a : Attempt O) (fd : ℕ) (t : Option (Termios O))
      → EndsWell (fd ∷ []) (with_attributes make_raw rtu a cb fd t)
  attributes-Ends a fd none = (refl, fail-closes fd)
  attributes-Ends a fd (some t) =
      let (s, hs) = speed_lem rtu good in
      let (z, hz) = size_lem rtu good in
      let x = line_settings rtu s z (make_raw t) in
      rw (hs, hz)
        (if-elim (EndsWell (fd ∷ [])) a.speed_set
          (if-elim (EndsWell (fd ∷ [])) a.attributes_set
            (
              x,
              refl,
              (
                fd,
                refl,
                if-elim (λ (es : List (PortEvent O)). left_open es (fd ∷ []) ≡ fd ∷ []) cb refl
                    refl,
              ),
              settings-line (make_raw t) s z hs hz,
              settings-speeds s z (make_raw t),
            )
            (refl, fail-closes fd))
          (refl, fail-closes fd))

  set_up-Ends : (a : Attempt O) (fd : ℕ) → EndsWell (fd ∷ []) (set_up_port make_raw rtu a cb fd)
  set_up-Ends a fd =
      if-elim (EndsWell (fd ∷ [])) a.is_tty
        (if-elim (EndsWell (fd ∷ [])) a.locked
          (if-elim (EndsWell (fd ∷ [])) a.exclusive (attributes-Ends a fd a.attributes)
            (refl, fail-closes fd))
          (refl, fail-closes fd))
        (refl, fail-closes fd)

  opened-Ends :
      (fd : ℕ) (t : Tried O)
      → EndsWell (fd ∷ []) t
      → EndsWell [] (record t { events = open_device fd ∷ t.events })
  opened-Ends fd t h = by_result t.result t.port t.events h
    where
      by_result :
          (r : Connected) (p : Option ℕ) (es : List (PortEvent O))
          → Ends rtu (fd ∷ []) r p es
          → Ends rtu [] r p (open_device fd ∷ es)
      by_result connected p es h = h
      by_result interrupted p es h = h
      by_result thrown p es h = h
      by_result (failed what) p es h = h

  open-Ends : (a : Attempt O) (o : Option ℕ) → EndsWell [] (open_port make_raw rtu a cb o)
  open-Ends a none = (refl, refl)
  open-Ends a (some fd) = opened-Ends fd (set_up_port make_raw rtu a cb fd) (set_up-Ends a fd)

  -- `tryConnect` on a port that is closed, for a line that `loadConfig` accepts: it never throws. If it
  -- succeeds, the one descriptor that is left open is the port's, and the settings that were applied, read back
  -- flag by flag, are the baud rate in both directions, the data bits, the parity and the stop bits of the
  -- configuration, whatever the driver's settings were. If it does not, the object has no port, and every
  -- descriptor that it opened has been closed.
  pub try_connect-Ends :
      (a : Attempt O)
      → Ends rtu []
          (try_connect make_raw rtu a cb none).result
          (try_connect make_raw rtu a cb none).port
          (try_connect make_raw rtu a cb none).events
  unfolding try_connect
  try_connect-Ends a = if-elim (EndsWell []) a.is_running (open-Ends a a.opened) (refl, refl)
