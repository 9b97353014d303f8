-- ===== src/Takeover/Tests.antt =====
-- A takeover by a clone whose name is free at the second attempt.
use slapos_abilian_edge.Takeover.{request, rename, bang, touch, Master, Arguments, Trace, takeover}
use slapos_abilian_edge.Takeover.Laws.{Completed, takeover-Completed}
use slapos_abilian_edge.Base.{◌≡◌, refl, true, false, none, some, [], ◌∷◌, str_eq, if◌then◌else◌}
use slapos_abilian_edge.Base.Py.{not_found, ok}

abbrev master : Master
master = record {
  requested = λ by reference. if str_eq reference "db0" then ok 10 else ok 11;
  rename_broken = none;
  rename_winner = some not_found ∷ none ∷ [];
  bang_answer = none;
  now = "01-Jan";
}

abbrev arguments : Arguments
arguments = record {
  current = 12;
  namebase = "db";
  winner_instance_suffix = some "1";
  takeover_triggered_file_path = "/srv/lock";
}

abbrev done : Trace
done =
    request 12 "db-import" false "db1"
    ∷ request 11 "frozen" true "db0"
    ∷ rename 10 "broken-01-Jan"
    ∷ rename 11 "db0"
    ∷ rename 11 "db0"
    ∷ bang 11
    ∷ touch "/srv/lock"
    ∷ []

runs : takeover master arguments ≡ some (ok tt, done)
unfolding takeover
runs = refl

takeover-Completed_example : Completed master arguments done
takeover-Completed_example = takeover-Completed master arguments done runs
