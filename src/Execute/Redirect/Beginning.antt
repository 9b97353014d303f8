-- ===== src/Execute/Redirect/Beginning.antt =====
-- The state in which the loop of generic_exec begins.
use slapos_abilian_edge.Execute.Redirect.{System, pipe_end, Fds, opened, Loop, setup, reopened}
use slapos_abilian_edge.Execute.Redirect.Laws.{no_more, one_more, ==_sym}
use slapos_abilian_edge.Execute.Redirect.Reopening.{Works, reopen-Opened}
use slapos_abilian_edge.Execute.Redirect.Refinement.{Implements}
use slapos_abilian_edge.Base.{ℕ, String, ◌≡◌, refl, ◌≢◌, Bool, true, false, none, some, [], ◌∷◌}
use slapos_abilian_edge.Base.{◌==◌, if◌then◌else◌, ==_iff}
use slapos_abilian_edge.Base.Py.{ok}

-- Before the pipes are made.
abbrev nothing_yet : ℕ → Loop
nothing_yet trigger = record { rfds = trigger ∷ []; logs = []; fds = []; written = [] }

abbrev both : (trigger r₁ w₁ r₂ w₂ : ℕ) → (stdout stderr : String) → Loop
both trigger r₁ w₁ r₂ w₂ stdout stderr =
    setup r₂ w₂ stderr (setup r₁ w₁ stdout (nothing_yet trigger))

open_first : (n : ℕ) (fds : Fds) → opened n ((n, pipe_end) ∷ fds) ≢ none
unfolding opened
open_first n fds = rw ((==_iff n n).1 refl) (λ e. cc)

open_second : (n m : ℕ) → opened n ((m, pipe_end) ∷ (n, pipe_end) ∷ []) ≢ none
unfolding opened
open_second n m = go (m == n)
  where
    go : (b : Bool) → (if b then some pipe_end else opened n ((n, pipe_end) ∷ [])) ≢ none
    go true = λ e. cc
    go false = open_first n []

-- After the pipes for two different logs were made and the logs opened, each pipe has its log, and
-- nothing was written; if logs can be opened on descriptors that are not in use.
both-Implements :
    (O : System)
    → Works O
    → (trigger r₁ w₁ r₂ w₂ : ℕ) (stdout stderr : String) → (w₁ == w₂) ≡ false
    → (s : Loop) × (reopened O (both trigger r₁ w₁ r₂ w₂ stdout stderr) ≡ ok s)
      × Implements trigger ((r₁, stdout) ∷ (r₂, stderr) ∷ []) [] s
unfolding opened
both-Implements O works trigger r₁ w₁ r₂ w₂ stdout stderr h =
    let s = both trigger r₁ w₁ r₂ w₂ stdout stderr in
    let o =
      reopen-Opened O works s.logs s.fds
        (open_second w₁ w₂, (open_first w₂ ((w₁, pipe_end) ∷ []), tt))
        ((==_sym w₁ w₂ h, tt), (tt, tt)) in
    (
      record { rfds = s.rfds; logs = o.logs_after; fds = o.fds_after; written = [] },
      rw o.returns refl,
      record {
        pipes = r₁ ∷ r₂ ∷ [];
        watches = refl;
        matching =
            o.matching ((r₁, stdout) ∷ (r₂, stderr) ∷ []) (r₁ ∷ r₂ ∷ [])
              (one_more r₁ stdout w₁ _ _ _ (one_more r₂ stderr w₂ _ _ _ no_more));
        logging = o.logging;
        distinct = o.distinct;
        output = refl;
      },
    )
