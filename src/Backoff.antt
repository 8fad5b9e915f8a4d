-- ===== src/Backoff.antt =====
-- The delay between attempts to connect, which `PostgresClient::run` and `MqttClient::networkLoop`
-- compute alike. Delays are whole seconds.
use native.Mathlib.Nat.{pow-succ'}
use fronius_bridge.Prelude.{
  ℕ, zero, suc, ◌+◌, ◌*◌, ◌^◌, ◌≤◌, min, ℤ, pos, negsuc, min_ℤ, ◌≡◌, refl, ap, Bool, true, false,
  if◌then◌else◌, arith,
}
use fronius_bridge.Config.Types.{ReconnectDelayConfig}

abbrev pub double : ℤ → ℤ
double (pos n) = pos (n * 2)
double (negsuc n) = negsuc (n * 2 + 1)

-- `exponential ? std::min(backoff * 2, maxDelay) : minDelay`
unfoldable pub next_backoff : ReconnectDelayConfig → ℤ → ℤ
next_backoff cfg backoff = if cfg.exponential then min_ℤ (double backoff) cfg.max else cfg.min

-- The delay that follows `n` failures in a row.
unfoldable pub backoff_after : ReconnectDelayConfig → ℕ → ℤ
backoff_after cfg zero = cfg.min
backoff_after cfg (suc n) = next_backoff cfg (backoff_after cfg n)

abbrev pub delays : ℕ → ℕ → Bool → ReconnectDelayConfig
delays lo hi e = record { min = pos lo; max = pos hi; exponential = e }

double_min :
    (lo hi p : ℕ) → min_ℤ (double (pos (min (lo * p) hi))) (pos hi) ≡ pos (min (lo * p * 2) hi)
double_min lo hi p = ground arith

-- After `n` failures in a row the delay is the least one doubled `n` times and no more than the greatest,
-- or always the least one if the schedule is not exponential.
pub backoff_after_lem :
    (lo hi n : ℕ) (e : Bool)
    → lo ≤ hi
    → backoff_after (delays lo hi e) n ≡ pos (if e then min (lo * 2 ^ n) hi else lo)
unfolding backoff_after next_backoff
backoff_after_lem lo hi zero true h = ap pos (omega arith)
backoff_after_lem lo hi (suc n) true h =
    rw (backoff_after_lem lo hi n true h, double_min lo hi (2 ^ n), pow-succ' 2 n)
      (ap pos (omega arith))
backoff_after_lem lo hi zero false h = refl
backoff_after_lem lo hi (suc n) false h = refl
