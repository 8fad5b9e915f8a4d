-- ===== src/Main/Start/Fails.antt =====
-- How the program ends after a start that failed.
use fronius_bridge.Prelude.{
  ◌≡◌, refl, ap, ◌∙◌, String, Bool, Option, some, List, [], ◌∷◌, ◌++◌, not, ◌&&◌, ◌==◌, text_eq,
  if-elim, ok,
}
use fronius_bridge.Config.Load.{AppConfig}
use fronius_bridge.Shutdown.{
  Occurrence, raised, gave_up, stopped, occur_all, fresh_handler, Exit, exit_of, success, failure,
  last_failure, first_signal, occur_all-exit,
}
use fronius_bridge.Main.Start.{Options, Action, plan, start, ended, run_main, exit_code}

code_failed :
    (r : String) (os : List Occurrence) → exit_code (ended (last_failure (failure r) os)) ≡ 1
code_failed r [] = refl
code_failed r (raised sig ∷ os) = code_failed r os
code_failed r (gave_up s ∷ os) = code_failed s os
code_failed r (stopped ∷ os) = code_failed r os

code_caught :
    (x : Exit) (during later : List Occurrence) (e : String)
    → exit_code (ended (last_failure x (during ++ gave_up e ∷ later))) ≡ 1
code_caught x [] later e = code_failed e later
code_caught x (raised sig ∷ os) later e = code_caught x os later e
code_caught x (gave_up s ∷ os) later e = code_caught (failure s) os later e
code_caught x (stopped ∷ os) later e = code_caught x os later e

code_after :
    (during later : List Occurrence) (e : String)
    → exit_code (ended (exit_of (occur_all (during ++ gave_up e ∷ later) fresh_handler))) ≡ 1
code_after [] later e =
    ap (λ x. exit_code (ended x)) (occur_all-exit (gave_up e) later).1 ∙ code_failed e later
code_after (o ∷ os) later e =
    ap (λ x. exit_code (ended x)) (occur_all-exit o (os ++ gave_up e ∷ later)).1
    ∙ code_caught (success (first_signal o)) (o ∷ os) later e

-- If an exception ends the start, the program fails, whatever signals or failures there are while it starts
-- and after.
pub run_main-failed :
    (throws : Action → Option String) (out_of_range : String) {F : Type 0} (is_root : Bool)
    (o : Options) (cfg : AppConfig F) (e : String) (during later : List Occurrence)
    → (start throws out_of_range (plan is_root o cfg)).1 ≡ some e
    → exit_code (run_main throws out_of_range {E = String} is_root o (ok cfg) during later) ≡ 1
unfolding run_main
run_main-failed throws oor is_root o cfg e during later h =
    if-elim (λ x. exit_code x ≡ 1) (not is_root && not (o.run_user == "")) refl
      (rw h (code_after during later e))
