-- ===== src/Readers/Registration/Detached.antt =====
-- That a reader that leaves a bus takes what is its own off it, and nothing of the others.
use fronius_bridge.Prelude.{
  ℕ, ◌≡◌, refl, sym, ap, ◌∙◌, Bool, true, false, List, [], ◌∷◌, ◌++◌, ◌==◌, nat_eq, nat_beq,
  nat_beq_iff, All, if◌then◌else◌, arith,
}
use fronius_bridge.Readers.Registration.{
  BusCall, register_device, unregister_device, add_connect_callback, add_disconnect_callback,
  add_error_callback, remove_callback, start_worker, join_worker, publish_disconnected, Reader,
  attach, detach,
}

-- What is on a bus, the newest first, as libfronius keeps it: the devices and the callbacks.
pub record OnBus : Type 0 where
  pub devices : List ℕ
  pub callbacks : List ℕ

abbrev without : ℕ → List ℕ → List ℕ
without x [] = []
without x (y ∷ ys) = if x == y then without x ys else y ∷ without x ys

abbrev pub call_one : BusCall → OnBus → OnBus
call_one (register_device d) b = record b { devices = d ∷ b.devices }
call_one (unregister_device d) b = record b { devices = without d b.devices }
call_one (add_connect_callback i) b = record b { callbacks = i ∷ b.callbacks }
call_one (add_disconnect_callback i) b = record b { callbacks = i ∷ b.callbacks }
call_one (add_error_callback i) b = record b { callbacks = i ∷ b.callbacks }
call_one (remove_callback i) b = record b { callbacks = without i b.callbacks }
call_one start_worker b = b
call_one join_worker b = b
call_one publish_disconnected b = b

unfoldable pub calls : List BusCall → OnBus → OnBus
calls [] b = b
calls (c ∷ cs) b = calls cs (call_one c b)

calls-append : (cs ds : List BusCall) (b : OnBus) → calls (cs ++ ds) b ≡ calls ds (calls cs b)
unfolding calls
calls-append [] ds b = refl
calls-append (c ∷ cs) ds b = calls-append cs ds (call_one c b)

without_comm : (x y : ℕ) (l : List ℕ) → without x (without y l) ≡ without y (without x l)
without_comm x y [] = refl
without_comm x y (z ∷ l) = ground (arith, without_comm x y l)

without-head : (x : ℕ) (l : List ℕ) → without x (x ∷ l) ≡ without x l
without-head x l = rw ((nat_beq_iff x x).1 refl) refl

without-new : (x y : ℕ) (l : List ℕ) → nat_beq x y ≡ false → without x (y ∷ l) ≡ y ∷ without x l
without-new x y l h = rw h refl

without-absent : (x : ℕ) (l : List ℕ) → All (λ y. nat_beq x y ≡ false) l → without x l ≡ l
without-absent x [] h = refl
without-absent x (y ∷ l) (h, hs) = without-new x y l h ∙ ap (λ m. y ∷ m) (without-absent x l hs)

module _ (r : Reader) where
  abbrev off_callbacks : List ℕ → List ℕ
  off_callbacks l = without r.on_error (without r.on_disconnect (without r.on_connect l))

  abbrev off : OnBus → OnBus
  off b = record { devices = without r.device b.devices; callbacks = off_callbacks b.callbacks }

  -- A callback of another.
  abbrev Others : ℕ → Type 0
  Others i =
      (nat_beq r.on_connect i ≡ false)
      × (nat_beq r.on_disconnect i ≡ false)
      × (nat_beq r.on_error i ≡ false)

  -- No device and no callback of the reader is there.
  abbrev pub IsAbsent : OnBus → Type 0
  IsAbsent b = All (λ d. nat_beq r.device d ≡ false) b.devices × All Others b.callbacks

  -- A call that names nothing of the reader.
  abbrev pub IsForeign : BusCall → Type 0
  IsForeign (register_device d) = nat_beq r.device d ≡ false
  IsForeign (unregister_device d) = nat_beq r.device d ≡ false
  IsForeign (add_connect_callback i) = Others i
  IsForeign (add_disconnect_callback i) = Others i
  IsForeign (add_error_callback i) = Others i
  IsForeign (remove_callback i) = Others i
  IsForeign _ = Unit

  off-new : (i : ℕ) (l : List ℕ) → Others i → off_callbacks (i ∷ l) ≡ i ∷ off_callbacks l
  off-new i l (a, b, c) = rw (a, b, c) refl

  off-without : (i : ℕ) (l : List ℕ) → off_callbacks (without i l) ≡ without i (off_callbacks l)
  off-without i l =
      ap (λ m. without r.on_error (without r.on_disconnect m)) (without_comm r.on_connect i l)
      ∙ ap (without r.on_error) (without_comm r.on_disconnect i (without r.on_connect l))
      ∙ without_comm r.on_error i (without r.on_disconnect (without r.on_connect l))

  abbrev at : OnBus → List ℕ → OnBus
  at b l = record { devices = without r.device b.devices; callbacks = l }

  off-call : (c : BusCall) (b : OnBus) → IsForeign c → off (call_one c b) ≡ call_one c (off b)
  off-call (register_device d) b h =
      ap (λ l. record { devices = l; callbacks = off_callbacks b.callbacks })
        (without-new r.device d b.devices h)
  off-call (unregister_device d) b h =
      ap (λ l. record { devices = l; callbacks = off_callbacks b.callbacks })
        (without_comm r.device d b.devices)
  off-call (add_connect_callback i) b h = ap (at b) (off-new i b.callbacks h)
  off-call (add_disconnect_callback i) b h = ap (at b) (off-new i b.callbacks h)
  off-call (add_error_callback i) b h = ap (at b) (off-new i b.callbacks h)
  off-call (remove_callback i) b h = ap (at b) (off-without i b.callbacks)
  off-call start_worker b h = refl
  off-call join_worker b h = refl
  off-call publish_disconnected b h = refl

  off-calls :
      (cs : List BusCall) (b : OnBus) → All IsForeign cs → off (calls cs b) ≡ calls cs (off b)
  unfolding calls
  off-calls [] b h = refl
  off-calls (c ∷ cs) b (h, hs) = off-calls cs (call_one c b) hs ∙ ap (calls cs) (off-call c b h)

  detach-off : (p : Bool) (b : OnBus) → calls (detach r p) b ≡ off b
  unfolding calls detach
  detach-off true b = refl
  detach-off false b = refl

  off-heads :
      (l : List ℕ)
      → off_callbacks (r.on_error ∷ r.on_disconnect ∷ r.on_connect ∷ l) ≡ off_callbacks l
  off-heads l =
      head_error (r.on_disconnect ∷ r.on_connect ∷ l)
      ∙ head_disconnect (r.on_connect ∷ l)
      ∙ head_connect l
    where
      head_connect : (m : List ℕ) → off_callbacks (r.on_connect ∷ m) ≡ off_callbacks m
      head_connect m =
          ap (λ x. without r.on_error (without r.on_disconnect x)) (without-head r.on_connect m)

      head_disconnect : (m : List ℕ) → off_callbacks (r.on_disconnect ∷ m) ≡ off_callbacks m
      head_disconnect m = ap (without r.on_error) (
          without_comm r.on_disconnect r.on_connect (r.on_disconnect ∷ m)
          ∙ ap (without r.on_connect) (without-head r.on_disconnect m)
          ∙ without_comm r.on_connect r.on_disconnect m)

      error_first :
          (m : List ℕ)
          → off_callbacks m ≡ without r.on_disconnect (without r.on_connect (without r.on_error m))
      error_first m =
          without_comm r.on_error r.on_disconnect (without r.on_connect m)
          ∙ ap (without r.on_disconnect) (without_comm r.on_error r.on_connect m)

      head_error : (m : List ℕ) → off_callbacks (r.on_error ∷ m) ≡ off_callbacks m
      head_error m =
          error_first (r.on_error ∷ m)
          ∙ ap (λ x. without r.on_disconnect (without r.on_connect x)) (without-head r.on_error m)
          ∙ sym (error_first m)

  off-absent : (b : OnBus) → IsAbsent b → off b ≡ b
  off-absent b (h, hs) =
      rw (without-absent r.device b.devices h, callbacks_absent b.callbacks hs) refl
    where
      callbacks_absent : (l : List ℕ) → All Others l → off_callbacks l ≡ l
      callbacks_absent [] k = refl
      callbacks_absent (i ∷ l) (k, ks) = off-new i l k ∙ ap (λ m. i ∷ m) (callbacks_absent l ks)

  attach-off : (b : OnBus) → off (calls (attach r) b) ≡ off b
  unfolding calls attach
  attach-off b = rw (without-head r.device b.devices, off-heads b.callbacks) refl

  -- A reader that joins a bus and leaves it, whatever readers of other devices, with callbacks of their own,
  -- join and leave in between: the bus has the devices and the callbacks that it would have without that
  -- reader, in the same order.
  pub detach-Absent :
      (others : List BusCall) (publishes : Bool) (b : OnBus)
      → IsAbsent b
      → All IsForeign others
      → calls (attach r ++ (others ++ detach r publishes)) b ≡ calls others b
  detach-Absent others p b absent foreign =
      let joined = calls (attach r) b in
      calls-append (attach r) (others ++ detach r p) b
      ∙ calls-append others (detach r p) joined
      ∙ detach-off p (calls others joined)
      ∙ off-calls others joined foreign
      ∙ ap (calls others) (attach-off b ∙ off-absent b absent)
