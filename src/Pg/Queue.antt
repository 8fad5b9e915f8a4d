-- ===== src/Pg/Queue.antt =====
-- `PostgresClient::enqueue`: a bounded queue that drops its oldest event. `threshold` is
-- `dropLogThreshold`, `A` the type of events.
use mathlib.Core.List.{append_assoc, append-nil}
use fronius_bridge.Prelude.{
  ℕ, zero, suc, ◌+◌, ◌-◌, ◌≤◌, ◌<◌, ◌≡◌, refl, ap, ◌∙◌, List, [], ◌∷◌, ◌++◌, length, length-append,
  leb, if◌then◌else◌, Bool-cases, ◌⊎◌, inl, inr, arith,
}

pub record EventQueue (A : Type 0) : Type 0 where
  pub queue : List A
  pub dropped_since_last_log : ℕ
  -- the sum of what the warnings in the log have reported
  pub reported : ℕ

-- `std::queue::pop`, undefined for an empty queue.
abbrev pub pop : {A : Type 0} → List A → List A
pop [] = []
pop (x ∷ xs) = xs

abbrev pub drop : {A : Type 0} → ℕ → List A → List A
drop zero xs = xs
drop (suc n) [] = []
drop (suc n) (x ∷ xs) = drop n xs

pub full-cases : (queue_size n : ℕ) → (queue_size ≤ n) ⊎ (n < queue_size)
full-cases queue_size n = elim (Bool-cases (leb queue_size n)) [
  | inl e ↦ inl (ground arith)
  | inr e ↦ inr (ground arith)
]

module _ {A : Type 0} (threshold queue_size : ℕ) where
  -- A full queue loses its front; every `threshold` losses are reported and counted anew.
  unfoldable pub make_room : EventQueue A → EventQueue A
  make_room s =
      if leb threshold (suc s.dropped_since_last_log)
      then record {
        queue = pop s.queue;
        dropped_since_last_log = 0;
        reported = s.reported + suc s.dropped_since_last_log;
      }
      else record s { queue = pop s.queue; dropped_since_last_log = suc s.dropped_since_last_log }

  unfoldable pub enqueue : A → EventQueue A → EventQueue A
  unfolding make_room
  enqueue ev s =
      let s' = if leb queue_size (length s.queue) then make_room s else s in
      record s' { queue = s'.queue ++ ev ∷ [] }

  unfoldable pub enqueue_all : List A → EventQueue A → EventQueue A
  enqueue_all [] s = s
  enqueue_all (ev ∷ evs) s = enqueue_all evs (enqueue ev s)

  make_room-queue : (s : EventQueue A) → (make_room s).queue ≡ pop s.queue
  unfolding make_room
  make_room-queue s = ground arith

  enqueue-room :
      (ev : A) (s : EventQueue A)
      → length s.queue < queue_size
      → enqueue ev s ≡ record s { queue = s.queue ++ ev ∷ [] }
  unfolding enqueue
  enqueue-room ev s h = ground arith

  enqueue-full :
      (ev : A) (s : EventQueue A)
      → queue_size ≤ length s.queue
      → (enqueue ev s).queue ≡ pop s.queue ++ ev ∷ []
  unfolding enqueue make_room
  enqueue-full ev s h = ground arith

  -- A full queue that is not empty: the front leaves.
  pub drop-pop :
      (q : List A) (ev : A) (evs : List A)
      → queue_size ≤ length q
      → 1 ≤ queue_size
      → length q ≤ queue_size
      → drop (length (pop q ++ ev ∷ evs) - queue_size) (pop q ++ ev ∷ evs)
        ≡ drop (length (q ++ ev ∷ evs) - queue_size) (q ++ ev ∷ evs)
  drop-pop [] ev evs h one le = absurd (omega arith)
  drop-pop (x ∷ q) ev evs h one le =
      ap (λ n. drop n (x ∷ q ++ ev ∷ evs)) {x = suc (length (q ++ ev ∷ evs) - queue_size)}
        {y = suc (length (q ++ ev ∷ evs)) - queue_size} (omega (arith, length-append q (ev ∷ evs)))

  pub length-pop : (q : List A) → 1 ≤ length q → suc (length (pop q)) ≡ length q
  length-pop [] h = absurd (omega arith)
  length-pop (x ∷ q) h = refl

  pub enqueue-length :
      (ev : A) (s : EventQueue A)
      → 1 ≤ queue_size
      → length s.queue ≤ queue_size
      → length (enqueue ev s).queue ≤ queue_size
  enqueue-length ev s one h = elim (full-cases queue_size (length s.queue)) [
    | inl full ↦
        rw (enqueue-full ev s full)
          (omega (arith, length-append (pop s.queue) (ev ∷ []), length-pop s.queue (omega arith)))
    | inr room ↦ rw (enqueue-room ev s room) (omega (arith, length-append s.queue (ev ∷ [])))
  ]

  -- However many events arrive, the queue holds the newest `queue_size` of those it held and of those that
  -- came, in the order of their arrival.
  pub enqueue_all-queue :
      (evs : List A) (s : EventQueue A)
      → 1 ≤ queue_size
      → length s.queue ≤ queue_size
      → (enqueue_all evs s).queue ≡ drop (length (s.queue ++ evs) - queue_size) (s.queue ++ evs)
  unfolding enqueue_all
  enqueue_all-queue [] s one h =
      rw (append-nil s.queue) (ap (λ n. drop n s.queue) {x = 0} (omega arith))
  enqueue_all-queue (ev ∷ evs) s one h =
      enqueue_all-queue evs (enqueue ev s) one (enqueue-length ev s one h)
      ∙ elim (full-cases queue_size (length s.queue)) [
        | inl full ↦
            rw (enqueue-full ev s full, append_assoc (pop s.queue) (ev ∷ []) evs)
              (drop-pop s.queue ev evs full one h)
        | inr room ↦ rw (enqueue-room ev s room, append_assoc s.queue (ev ∷ []) evs) refl
      ]

  -- The events that have been dropped.
  abbrev pub dropped : EventQueue A → ℕ
  dropped s = s.reported + s.dropped_since_last_log

  enqueue-dropped :
      (ev : A) (s : EventQueue A)
      → 1 ≤ queue_size
      → length (enqueue ev s).queue + dropped (enqueue ev s) ≡ suc (length s.queue + dropped s)
  unfolding enqueue make_room
  enqueue-dropped ev s one = ground (
    arith,
    length-append s.queue (ev ∷ []),
    length-append (pop s.queue) (ev ∷ []),
    length-pop s.queue,
  )

  -- No event is lost from the accounts: those still queued, those reported in the log and those to be
  -- reported are as many as there were and as have come.
  pub enqueue_all-dropped :
      (evs : List A) (s : EventQueue A)
      → 1 ≤ queue_size
      → length (enqueue_all evs s).queue + dropped (enqueue_all evs s)
        ≡ length evs + (length s.queue + dropped s)
  unfolding enqueue_all
  enqueue_all-dropped [] s one = omega arith
  enqueue_all-dropped (ev ∷ evs) s one =
      omega (arith, enqueue_all-dropped evs (enqueue ev s) one, enqueue-dropped ev s one)

  -- Fewer drops than the threshold are ever left unreported.
  pub enqueue_all-threshold :
      (evs : List A) (s : EventQueue A)
      → 1 ≤ threshold
      → s.dropped_since_last_log < threshold
      → (enqueue_all evs s).dropped_since_last_log < threshold
  unfolding enqueue_all enqueue make_room
  enqueue_all-threshold [] s one h = h
  enqueue_all-threshold (ev ∷ evs) s one h =
      enqueue_all-threshold evs (enqueue ev s) one (ground arith)
