-- ===== src/Takeover/Laws.antt =====
-- Lemmas on the trace of slapos/recipe/addresiliency/takeover.py.
use slapos_abilian_edge.Takeover.{
  Instance, request, rename, bang, touch, Master, Arguments, answered, suffix_given, Trace, tell,
  exporter_ref, winner, rename_until, after_rename, rename_and_finish, with_winner, takeover,
}
use mathlib.Core.List.{append_assoc}
use slapos_abilian_edge.Base.{ℕ, suc, ◌<>◌, ◌≡◌, refl, sym, ap, ◌∙◌, true, Option, none, some, List}
use slapos_abilian_edge.Base.{[], ◌∷◌, ◌++◌, replicate}
use slapos_abilian_edge.Base.Py.{Exc, not_found, Outcome, ok, raised, run_on}

-- The attempts before the first that is not refused for a name that is not found.
abbrev pub tries : List (Option Exc) → ℕ
tries [] = 0
tries (some not_found ∷ attempts) = suc (tries attempts)
tries (_ ∷ attempts) = 1

module _ (M : Master) (a : Arguments) where
  abbrev pub rename_effects : Instance → ℕ → Trace
  rename_effects w n = replicate n (rename w (exporter_ref M a))

  -- The effects of a takeover that is complete, in their order, after those of the choice of the
  -- winner: the broken instance is stopped and gives up its name before the winner takes it, and
  -- only after that the Master is told and the imports are blocked.
  abbrev pub effects : (w broken : Instance) → Trace
  effects w broken =
      request w "frozen" true (exporter_ref M a)
      ∷ rename broken ("broken-" <> M.now)
      ∷ (rename_effects w (tries M.rename_winner)
          ++ (bang w ∷ touch a.takeover_triggered_file_path ∷ []))

  rename_until-effects :
      (w : Instance) (attempts : List (Option Exc)) (trace after : Trace)
      → rename_until M a w attempts trace ≡ some (ok tt, after)
      → after ≡ trace ++ rename_effects w (tries attempts)
  unfolding rename_until
  rename_until-effects w [] trace after h = cc
  rename_until-effects w (none ∷ attempts) trace after h = cc
  rename_until-effects w (some not_found ∷ attempts) trace after h =
      rename_until-effects w attempts (trace ++ (rename w (exporter_ref M a) ∷ [])) after h
      ∙ append_assoc trace (rename w (exporter_ref M a) ∷ []) (rename_effects w (tries attempts))
  rename_until-effects w (some e ∷ attempts) trace after h = cc

  -- The winner, the broken instance, and what was done to choose the winner.
  abbrev pub Completed : Trace → Type 0
  Completed after =
      (w : Instance) × (broken : Instance) × (choice : Trace) × (winner M a
          (suffix_given a.winner_instance_suffix) []
        ≡ (ok w, choice))
      × (M.requested w (exporter_ref M a) ≡ ok broken)
      × (after ≡ choice ++ effects w broken)

  finished :
      (w : Instance) (trace after : Trace) (q : Option (Outcome (Unit {0}) × Trace))
      → rename_until M a w M.rename_winner trace ≡ q
      → after_rename M a w q ≡ some (ok tt, after)
      → after
        ≡ trace
          ++ (rename_effects w (tries M.rename_winner)
              ++ (bang w ∷ touch a.takeover_triggered_file_path ∷ []))
  finished w trace after none e h = cc
  finished w trace after (some (raised x, t)) e h = cc
  finished w trace after (some (ok u, t)) e h = told M.bang_answer refl h
    where
      told :
          (b : Option Exc)
          → M.bang_answer ≡ b
          → some (
              run_on {B = Unit {0}}
                (answered b, t ++ (bang w ∷ []))
                (λ _. tell (touch a.takeover_triggered_file_path) (ok tt)))
            ≡ some (ok tt, after)
          → after
            ≡ trace
              ++ (rename_effects w (tries M.rename_winner)
                  ++ (bang w ∷ touch a.takeover_triggered_file_path ∷ []))
      told (some x) f k = cc
      told none f k =
          let r : t ≡ trace ++ rename_effects w (tries M.rename_winner) =
            rename_until-effects w M.rename_winner trace t e in
          let z : (t ++ (bang w ∷ [])) ++ (touch a.takeover_triggered_file_path ∷ []) ≡ after =
            cc in
          sym z
          ∙ (append_assoc t (bang w ∷ []) (touch a.takeover_triggered_file_path ∷ [])
              ∙ (ap (λ x. x ++ (bang w ∷ touch a.takeover_triggered_file_path ∷ [])) r
                  ∙ append_assoc trace (rename_effects w (tries M.rename_winner))
                      (bang w ∷ touch a.takeover_triggered_file_path ∷ [])))

  aside :
      (w : Instance) (choice after : Trace) (o : Outcome Instance) (r : Option Exc)
      → rename_and_finish M a w (
          run_on {B = Unit {0}}
            (o, choice ++ (request w "frozen" true (exporter_ref M a) ∷ []))
            (λ broken. tell (rename broken ("broken-" <> M.now)) (answered r)))
        ≡ some (ok tt, after)
      → (broken : Instance) × (o ≡ ok broken) × (after ≡ choice ++ effects w broken)
  aside w choice after (raised e) r h = cc
  aside w choice after (ok broken) (some e) h = cc
  aside w choice after (ok broken) none h =
      let first = request w "frozen" true (exporter_ref M a) ∷ [] in
      let second = rename broken ("broken-" <> M.now) ∷ [] in
      let rest =
        rename_effects w (tries M.rename_winner)
        ++ (bang w ∷ touch a.takeover_triggered_file_path ∷ []) in
      (
        broken,
        refl,
        finished w ((choice ++ first) ++ second) after
              (rename_until M a w M.rename_winner ((choice ++ first) ++ second)) refl h
            ∙ (append_assoc (choice ++ first) second rest
                ∙ append_assoc choice first (second ++ rest)),
      )

  -- A takeover that ends without an exception has done exactly this, in this order: the choice of
  -- the winner, the request that stops and freezes the instance with the name of the main one, the
  -- renaming of that instance, as many attempts to give its name to the winner as the Master did
  -- not find it and one that succeeded, the message to the Master, and the file that blocks imports.
  pub takeover-Completed : (after : Trace) → takeover M a ≡ some (ok tt, after) → Completed after
  unfolding takeover
  takeover-Completed after h = go (winner M a (suffix_given a.winner_instance_suffix) []) refl h
    where
      go :
          (q : Outcome Instance × Trace)
          → winner M a (suffix_given a.winner_instance_suffix) [] ≡ q
          → with_winner M a q ≡ some (ok tt, after)
          → Completed after
      go (raised e, choice) p k = cc
      go (ok w, choice) p k =
          let (broken, x, y) =
            aside w choice after (M.requested w (exporter_ref M a)) M.rename_broken k in
          (w, broken, choice, p, x, y)
