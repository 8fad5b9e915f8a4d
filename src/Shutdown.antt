-- ===== src/Shutdown.antt =====
-- include/signal_handler.h: the flags that end the program. A signal is its number.
use fronius_bridge.Prelude.{ℕ, ◌≡◌, refl, Bool, true, false, String, List, [], ◌∷◌, if◌then◌else◌}

pub record SignalHandler : Type 0 where
  pub is_running : Bool
  pub failed : Bool
  pub reason : String
  pub signal : ℕ

abbrev pub fresh_handler : SignalHandler
fresh_handler = record { is_running = true; failed = false; reason = ""; signal = 0 }

unfoldable pub shutdown : (failure : Bool) → (reason : String) → SignalHandler → SignalHandler
shutdown true reason h = record h { is_running = false; failed = true; reason = reason }
shutdown false reason h = record h { is_running = false }

-- The handler that `sigaction` installs.
unfoldable pub on_signal : (sig : ℕ) → SignalHandler → SignalHandler
unfolding shutdown
on_signal sig h =
    let stopped = shutdown false "" (record h { signal = sig }) in
    if h.is_running then stopped else h

pub data Occurrence : Type 0 where
  raised : (sig : ℕ) → Occurrence
  -- a component that cannot go on
  gave_up : (reason : String) → Occurrence
  -- `shutdown()`
  stopped : Occurrence

unfoldable pub occur : Occurrence → SignalHandler → SignalHandler
unfolding shutdown on_signal
occur (raised sig) h = on_signal sig h
occur (gave_up reason) h = shutdown true reason h
occur stopped h = shutdown false "" h

unfoldable pub occur_all : List Occurrence → SignalHandler → SignalHandler
occur_all [] h = h
occur_all (o ∷ os) h = occur_all os (occur o h)

pub data Exit : Type 0 where
  success : (signal : ℕ) → Exit
  failure : (reason : String) → Exit

-- What `main` does once `wait` has returned.
unfoldable pub exit_of : SignalHandler → Exit
exit_of h = if h.failed then failure h.reason else success h.signal

-- The last reason that a component gave, if one gave up.
abbrev pub last_failure : Exit → List Occurrence → Exit
last_failure x [] = x
last_failure x (raised sig ∷ os) = last_failure x os
last_failure x (gave_up reason ∷ os) = last_failure (failure reason) os
last_failure x (stopped ∷ os) = last_failure x os

-- The first occurrence decides the signal that is reported.
abbrev pub first_signal : Occurrence → ℕ
first_signal (raised sig) = sig
first_signal (gave_up reason) = 0
first_signal stopped = 0

abbrev ended : Bool → String → ℕ → SignalHandler
ended failed reason signal = record {
  is_running = false;
  failed = failed;
  reason = reason;
  signal = signal;
}

-- Once the flag is down, an occurrence changes the reported failure alone.
latched :
    (f : Bool) (r : String) (s : ℕ) (os : List Occurrence)
    → ((occur_all os (ended f r s)).is_running ≡ false)
      × (exit_of (occur_all os (ended f r s)) ≡ last_failure (exit_of (ended f r s)) os)
unfolding occur_all occur shutdown on_signal exit_of
latched f r s [] = (refl, refl)
latched f r s (raised sig ∷ os) = latched f r s os
latched f r s (gave_up reason ∷ os) = latched true reason s os
latched f r s (stopped ∷ os) = latched f r s os

-- The program ends at the first occurrence and stays ended. It fails with the last reason given if any
-- component gave up, before or after, and else reports the signal that came first.
pub occur_all-exit :
    (o : Occurrence) (os : List Occurrence)
    → ((occur_all (o ∷ os) fresh_handler).is_running ≡ false)
      × (exit_of (occur_all (o ∷ os) fresh_handler)
          ≡ last_failure (success (first_signal o)) (o ∷ os))
unfolding occur_all occur shutdown on_signal exit_of
occur_all-exit (raised sig) os = latched false "" sig os
occur_all-exit (gave_up reason) os = latched true reason 0 os
occur_all-exit stopped os = latched false "" 0 os
