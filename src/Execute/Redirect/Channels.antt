-- ===== src/Execute/Redirect/Channels.antt =====
-- A description of the loop of generic_exec by channels: the pipes of the process with the paths of
-- their logs.
use slapos_abilian_edge.Base.{ℕ, String, Bool, true, false, Option, none, some, List, [], ◌∷◌, ◌++◌}
use slapos_abilian_edge.Base.{◌==◌, if◌then◌else◌}
use slapos_abilian_edge.Base.Text.{Text}

abbrev pub Channels : Type 0
Channels = List (ℕ × String)

abbrev pub Output : Type 0
Output = List (String × Text)

unfoldable pub path_of : ℕ → Channels → Option String
path_of r [] = none
path_of r ((p, path) ∷ ch) = if p == r then some path else path_of r ch

unfoldable pub drop_channel : ℕ → Channels → Channels
drop_channel r [] = []
drop_channel r ((p, path) ∷ ch) =
    let rest = drop_channel r ch in if p == r then ch else (p, path) ∷ rest

abbrev pub Promised : Type 0
Promised = (Channels × Output) × Bool

abbrev pub nothing_left : Channels → Bool
nothing_left [] = true
nothing_left (c ∷ ch) = false

abbrev pub transferred : Channels → Output → String → ℕ → Text → Promised
transferred ch out path r [] = ((drop_channel r ch, out), nothing_left (drop_channel r ch))
transferred ch out path r (c ∷ d) = ((ch, out ++ ((path, c ∷ d) ∷ [])), false)

-- The descriptor that a signal makes ready transfers nothing.
unfoldable pub transfer : (trigger : ℕ) → ℕ → Text → Channels → Output → Option Promised
unfolding path_of drop_channel
transfer trigger r d ch out = elim (trigger == r) as (λ _. Option Promised) [
  | true ↦ some ((ch, out), false)
  | false ↦ elim (path_of r ch) as (λ _. Option Promised) [
    | none ↦ none
    | some path ↦ some (transferred ch out path r d)
  ]
]

abbrev pub continue : Option Promised → (Channels → Output → Option Promised) → Option Promised
continue none k = none
continue (some ((ch, out), true)) k = some ((ch, out), true)
continue (some ((ch, out), false)) k = k ch out

-- What is promised for a sequence of reads; `none` for a read from no open pipe.
unfoldable pub transfers : (trigger : ℕ) → List (ℕ × Text) → Channels → Output → Option Promised
unfolding transfer
transfers trigger [] ch out = some ((ch, out), false)
transfers trigger ((r, d) ∷ events) ch out =
    continue (transfer trigger r d ch out) (transfers trigger events)
