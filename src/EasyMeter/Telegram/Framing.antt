-- ===== src/EasyMeter/Telegram/Framing.antt =====
-- A telegram is found whatever the reads that it comes in.
use fronius_bridge.Prelude.{
  ℕ, ◌+◌, ◌≤◌, ◌≡◌, ◌≢◌, refl, sym, ap, ◌∙◌, true, false, Bool-cases, inl, inr, Option, none, some,
  List, [], ◌∷◌, ◌++◌, map, All, length, length-append, if◌then◌else◌, Result, ok, arith,
}
use fronius_bridge.EasyMeter.Telegram.{
  telegram_size, Frame, start, ends_telegram, take_byte, is_open, take_bytes, TelegramError,
  received, reverse_onto, finish, turn, read_loop, read_telegram,
}

take_bytes-nil : (f : Frame) → take_bytes [] f ≡ f
unfolding take_bytes
take_bytes-nil f = refl

take_bytes-closed : (cs : List ℕ) (f : Frame) → is_open f ≡ false → take_bytes cs f ≡ f
unfolding take_bytes
take_bytes-closed [] f h = refl
take_bytes-closed (c ∷ cs) f h = ap (λ b. if b then take_bytes cs (take_byte c f) else f) h

take_bytes-open :
    (c : ℕ) (cs : List ℕ) (f : Frame)
    → is_open f ≡ true
    → take_bytes (c ∷ cs) f ≡ take_bytes cs (take_byte c f)
unfolding take_bytes
take_bytes-open c cs f h = ap (λ b. if b then take_bytes cs (take_byte c f) else f) h

-- Bytes taken in two portions are taken as one.
take_bytes-append :
    (xs ys : List ℕ) (f : Frame) → take_bytes ys (take_bytes xs f) ≡ take_bytes (xs ++ ys) f
take_bytes-append [] ys f = ap (take_bytes ys) (take_bytes-nil f)
take_bytes-append (c ∷ xs) ys f = elim (Bool-cases (is_open f)) [
  | inl o ↦
      ap (take_bytes ys) (take_bytes-open c xs f o)
      ∙ take_bytes-append xs ys (take_byte c f)
      ∙ sym (take_bytes-open c (xs ++ ys) f o)
  | inr o ↦
      ap (take_bytes ys) (take_bytes-closed (c ∷ xs) f o)
      ∙ take_bytes-closed ys f o
      ∙ sym (take_bytes-closed (c ∷ xs ++ ys) f o)
]

abbrev pub flat : List (ℕ × List ℕ) → List ℕ
flat [] = []
flat ((b, c) ∷ cs) = b ∷ c ++ flat cs

-- What a frame comes to.
abbrev pub outcome : Frame → Option (Result TelegramError (List ℕ))
outcome f = if is_open f then none else some (finish f)

read_loop_received :
    (chunks : List (ℕ × List ℕ)) (f : Frame)
    → read_loop (map received chunks) f ≡ outcome (take_bytes (flat chunks) f)
unfolding read_loop turn
read_loop_received [] f = ap outcome (sym (take_bytes-nil f))
read_loop_received ((d, c) ∷ cs) f = elim (Bool-cases (is_open f)) [
  | inl o ↦
      ap (λ b. if b then read_loop (map received cs) (take_bytes (d ∷ c) f) else some (finish f)) o
      ∙ read_loop_received cs (take_bytes (d ∷ c) f)
      ∙ ap outcome (take_bytes-append (d ∷ c) (flat cs) f)
  | inr o ↦
      ap (λ b. if b then read_loop (map received cs) (take_bytes (d ∷ c) f) else some (finish f)) o
      ∙ sym (ap (λ b. if b then none else some (finish f)) o)
      ∙ ap outcome (sym (take_bytes-closed (d ∷ c ++ flat cs) f o))
]

abbrev pub Quiet : List ℕ → Type 0
Quiet cs = All (λ c. c ≢ b'!') cs

skip-byte : (c : ℕ) → c ≢ b'/' → take_byte c start ≡ start
unfolding take_byte
skip-byte c h = ground arith

-- Bytes before the first '/' are passed over.
take_bytes-before :
    (before cs : List ℕ)
    → All (λ c. c ≢ b'/') before
    → take_bytes (before ++ cs) start ≡ take_bytes cs start
take_bytes-before [] cs _ = refl
take_bytes-before (c ∷ before) cs (h, hs) =
    take_bytes-open c (before ++ cs) start refl
    ∙ ap (take_bytes (before ++ cs)) (skip-byte c h)
    ∙ take_bytes-before before cs hs

-- A frame that has taken these bytes, the newest first, and is still open.
abbrev collecting : List ℕ → Frame
collecting p = record {
  packet = p;
  packet_pos = length p;
  message_begin = true;
  telegram_complete = false;
}

take-Quiet : (c : ℕ) (p : List ℕ) → Quiet p → take_byte c (collecting p) ≡ collecting (c ∷ p)
unfolding take_byte ends_telegram
take-Quiet c [] q = refl
take-Quiet c (a ∷ []) q = refl
take-Quiet c (a ∷ b ∷ p) (_, (h, _)) = ground arith

take_bytes-body :
    (body cs p : List ℕ)
    → Quiet body
    → Quiet p
    → length p + length body ≤ 366
    → take_bytes (body ++ cs) (collecting p) ≡ take_bytes cs (collecting (reverse_onto body p))
take_bytes-body [] cs p _ _ _ = refl
take_bytes-body (c ∷ body) cs p (h, hs) q le =
    take_bytes-open c (body ++ cs) (collecting p) (ground arith)
    ∙ ap (take_bytes (body ++ cs)) (take-Quiet c p q)
    ∙ take_bytes-body body cs (c ∷ p) hs (h, q) (omega arith)

reverse_onto_twice :
    (xs p q : List ℕ) → reverse_onto (reverse_onto xs p) q ≡ reverse_onto p (xs ++ q)
reverse_onto_twice [] p q = refl
reverse_onto_twice (x ∷ xs) p q = reverse_onto_twice xs (x ∷ p) q

reverse_onto-Quiet : (xs p : List ℕ) → Quiet xs → Quiet p → Quiet (reverse_onto xs p)
reverse_onto-Quiet [] p _ q = q
reverse_onto-Quiet (x ∷ xs) p (h, hs) q = reverse_onto-Quiet xs (x ∷ p) hs (h, q)

length-reverse_onto : (xs p : List ℕ) → length (reverse_onto xs p) ≡ length xs + length p
length-reverse_onto [] p = omega arith
length-reverse_onto (x ∷ xs) p = omega (arith, length-reverse_onto xs (x ∷ p))

abbrev complete : List ℕ → Frame
complete p = record {
  packet = p;
  packet_pos = length p;
  message_begin = true;
  telegram_complete = true;
}

take-mark :
    (a x : ℕ) (p : List ℕ)
    → x ≢ b'!'
    → take_byte a (collecting (b'!' ∷ x ∷ p)) ≡ collecting (a ∷ b'!' ∷ x ∷ p)
unfolding take_byte ends_telegram
take-mark a x p h = ground arith

take-last :
    (a b : ℕ) (p : List ℕ) → take_byte b (collecting (a ∷ b'!' ∷ p)) ≡ complete (b ∷ a ∷ b'!' ∷ p)
unfolding take_byte ends_telegram
take-last a b p = refl

take_bytes-end :
    (a b : ℕ) (after p : List ℕ)
    → Quiet p
    → 1 ≤ length p
    → length p ≤ 365
    → take_bytes (b'!' ∷ a ∷ b ∷ after) (collecting p) ≡ complete (b ∷ a ∷ b'!' ∷ p)
take_bytes-end a b after [] q one le = absurd (omega arith)
take_bytes-end a b after (x ∷ p) (h, q) one le =
    take_bytes-open b'!' (a ∷ b ∷ after) (collecting (x ∷ p)) (ground arith)
    ∙ ap (take_bytes (a ∷ b ∷ after)) (take-Quiet b'!' (x ∷ p) (h, q))
    ∙ take_bytes-open a (b ∷ after) (collecting (b'!' ∷ x ∷ p)) (ground arith)
    ∙ ap (take_bytes (b ∷ after)) (take-mark a x p h)
    ∙ take_bytes-open b after (collecting (a ∷ b'!' ∷ x ∷ p)) (ground arith)
    ∙ ap (take_bytes after) (take-last a b (x ∷ p))
    ∙ take_bytes-closed after (complete (b ∷ a ∷ b'!' ∷ x ∷ p)) (ground arith)

slash : Quiet (b'/' ∷ [])
slash = (ground arith, tt)

begins : take_byte b'/' start ≡ collecting (b'/' ∷ [])
unfolding take_byte ends_telegram
begins = refl

outcome-complete :
    (p : List ℕ) → ends_telegram p ≡ true → outcome (complete p) ≡ some (ok (reverse_onto p []))
unfolding finish
outcome-complete p h = ground (arith, h)

abbrev pub telegram : List ℕ → ℕ → ℕ → List ℕ
telegram body a b = b'/' ∷ body ++ b'!' ∷ a ∷ b ∷ []

stream_complete :
    (before body after : List ℕ) (a b : ℕ)
    → All (λ c. c ≢ b'/') before
    → Quiet body
    → length body ≤ 364
    → take_bytes (before ++ b'/' ∷ (body ++ b'!' ∷ a ∷ b ∷ after)) start
      ≡ complete (b ∷ a ∷ b'!' ∷ reverse_onto body (b'/' ∷ []))
stream_complete before body after a b h q le =
    take_bytes-before before (b'/' ∷ (body ++ b'!' ∷ a ∷ b ∷ after)) h
    ∙ take_bytes-open b'/' (body ++ b'!' ∷ a ∷ b ∷ after) start refl
    ∙ ap (take_bytes (body ++ b'!' ∷ a ∷ b ∷ after)) begins
    ∙ take_bytes-body body (b'!' ∷ a ∷ b ∷ after) (b'/' ∷ []) q slash (omega arith)
    ∙ take_bytes-end a b after (reverse_onto body (b'/' ∷ []))
        (reverse_onto-Quiet body (b'/' ∷ []) q slash)
        (omega (arith, length-reverse_onto body (b'/' ∷ [])))
        (omega (arith, length-reverse_onto body (b'/' ∷ [])))

-- A telegram is read whole wherever the reads cut the stream: what comes before its '/' is passed over,
-- it ends two bytes after its '!', and what the last read holds beyond that is not part of it. It holds
-- one '!' and has at most 368 bytes.
pub read_telegram-telegram :
    (chunks : List (ℕ × List ℕ)) (before body after : List ℕ) (a b : ℕ)
    → flat chunks ≡ before ++ b'/' ∷ (body ++ b'!' ∷ a ∷ b ∷ after)
    → All (λ c. c ≢ b'/') before
    → Quiet body
    → length (telegram body a b) ≤ telegram_size
    → read_telegram true true (map received chunks) ≡ some (ok (telegram body a b))
unfolding read_telegram finish ends_telegram
read_telegram-telegram chunks before body after a b e h q le =
    read_loop_received chunks start
    ∙ ap (λ l. outcome (take_bytes l start)) e
    ∙ ap outcome (
        stream_complete before body after a b h q
          (omega (arith, length-append body (b'!' ∷ a ∷ b ∷ []))))
    ∙ outcome-complete (b ∷ a ∷ b'!' ∷ reverse_onto body (b'/' ∷ [])) refl
    ∙ ap (λ l. some (ok l)) (reverse_onto_twice body (b'/' ∷ []) (b'!' ∷ a ∷ b ∷ []))
