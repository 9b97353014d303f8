-- ===== src/Takeover.antt =====
-- slapos/recipe/addresiliency/takeover.py: a clone takes the place of the main instance.
mod Laws
mod Tests
use slapos_abilian_edge.Base.{ℕ, String, ◌<>◌, Bool, true, false, Option, none, some, List, [], ◌∷◌}
use slapos_abilian_edge.Base.{◌++◌, str_eq, if◌then◌else◌}
use slapos_abilian_edge.Base.Py.{Exc, not_found, Outcome, ok, raised, Py, pure, run_on, ◌>>=◌, ◌>>◌}

-- An instance of the Master, by the number that stays when its name changes.
abbrev pub Instance : Type 0
Instance = ℕ

-- What the Master and the disk are told, in order.
pub data Effect : Type 0 where
  request : (by : Instance) (software_type : String) (stopped : Bool) (reference : String) → Effect
  rename : Instance → String → Effect
  bang : Instance → Effect
  touch : String → Effect

-- The answers of the Master: to a request, to the renaming of the broken instance, to each attempt
-- to rename the winner; `none` is no error. And the text of the time.
pub record Master : Type 0 where
  pub requested : Instance → String → Outcome Instance
  pub rename_broken : Option Exc
  pub rename_winner : List (Option Exc)
  pub bang_answer : Option Exc
  pub now : String

-- The arguments of the function.
pub record Arguments : Type 0 where
  pub current : Instance
  pub namebase : String
  pub winner_instance_suffix : Option String
  pub takeover_triggered_file_path : String

abbrev pub answered : Option Exc → Outcome (Unit {0})
answered none = ok tt
answered (some e) = raised e

abbrev pub suffix_given : Option String → Option String
suffix_given none = none
suffix_given (some s) = if str_eq s "" then none else some s

-- The trace of what was done comes back beside an exception too.
abbrev pub Trace : Type 0
Trace = List Effect

abbrev pub tell : {A : Type 0} → Effect → Outcome A → Py Trace A
tell effect answer trace = (answer, trace ++ (effect ∷ []))

module _ (M : Master) (a : Arguments) where
  abbrev pub exporter_ref : String
  exporter_ref = a.namebase <> "0"

  -- The partition that takes over.
  abbrev pub winner : Option String → Py Trace Instance
  winner none = pure a.current
  winner (some suffix) =
      let name = a.namebase <> suffix in
      tell (request a.current (a.namebase <> "-import") false name) (M.requested a.current name)

  -- The loop that renames the winner: a name that is not found is tried again, another exception
  -- ends the script; `none` when no attempt of the list succeeds.
  unfoldable pub rename_until :
      Instance → List (Option Exc) → Trace → Option (Outcome (Unit {0}) × Trace)
  rename_until w [] trace = none
  rename_until w (none ∷ attempts) trace = some (ok tt, trace ++ (rename w exporter_ref ∷ []))
  rename_until w (some not_found ∷ attempts) trace =
      rename_until w attempts (trace ++ (rename w exporter_ref ∷ []))
  rename_until w (some e ∷ attempts) trace = some (raised e, trace ++ (rename w exporter_ref ∷ []))

  -- The broken partition is asked for by its name, stopped, and renamed.
  abbrev pub put_aside : Instance → Py Trace (Unit {0})
  put_aside w =
      tell (request w "frozen" true exporter_ref) (M.requested w exporter_ref) >>= λ broken.
      tell (rename broken ("broken-" <> M.now)) (answered M.rename_broken)

  abbrev pub finish : Instance → Py Trace (Unit {0})
  finish w =
      tell (bang w) (answered M.bang_answer) >> tell (touch a.takeover_triggered_file_path) (ok tt)

  abbrev pub after_rename :
      Instance → Option (Outcome (Unit {0}) × Trace) → Option (Outcome (Unit {0}) × Trace)
  after_rename w none = none
  after_rename w (some q) = some (run_on {B = Unit {0}} q (λ _. finish w))

  abbrev pub rename_and_finish :
      Instance → Outcome (Unit {0}) × Trace → Option (Outcome (Unit {0}) × Trace)
  rename_and_finish w (raised e, trace) = some (raised e, trace)
  rename_and_finish w (ok _, trace) = after_rename w (rename_until w M.rename_winner trace)

  abbrev pub with_winner : Outcome Instance × Trace → Option (Outcome (Unit {0}) × Trace)
  with_winner (raised e, trace) = some (raised e, trace)
  with_winner (ok w, trace) = rename_and_finish w (put_aside w trace)

  -- `takeover`; `none` when it still tries to rename the winner.
  unfoldable pub takeover : Option (Outcome (Unit {0}) × Trace)
  unfolding rename_until
  takeover = with_winner (winner (suffix_given a.winner_instance_suffix) [])
