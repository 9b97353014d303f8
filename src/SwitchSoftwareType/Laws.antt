-- ===== src/SwitchSoftwareType/Laws.antt =====
-- Lemmas on the choice of slapos/recipe/switch_softwaretype.py.
use slapos_abilian_edge.Base.{String, ◌≡◌, refl, sym, ap, ◌∙◌, ◌⊎◌, inl, inr, Bool, true, false}
use slapos_abilian_edge.Base.{str_eq, eq_iff, if◌then◌else◌}
use slapos_abilian_edge.Base.Py.{value_error, user_error, missing_option, Outcome, ok, raised, bind}
use slapos_abilian_edge.Base.Py.{bind-eq-ok, ok_injective}
use slapos_abilian_edge.SwitchSoftwareType.{
  Options, Sections, Recipe, value_of, requested_type, mapped, choose, init,
}

-- The type that was asked for, or `default` for a root instance without a mapping of its own.
abbrev pub Chosen : Options → String → String → Type 0
Chosen options t chosen =
    (chosen ≡ t)
    ⊎ ((t ≡ "RootSoftwareInstance")
        × (chosen ≡ "default")
        × (mapped options t ≡ raised missing_option))

choose-Chosen :
    (options : Options) (t chosen : String) (p : String × String)
    → choose options t ≡ ok (chosen, p)
    → (mapped options chosen ≡ ok p) × Chosen options t chosen
unfolding choose
choose-Chosen options t chosen p h = go (mapped options t) refl h
  where
    fallen :
        mapped options t ≡ raised missing_option
        → (b : Bool) → str_eq t "RootSoftwareInstance" ≡ b
        → (if b
            then bind {B = String × (String × String)}
                (mapped options "default")
                (λ p. ok ("default", p))
            else raised missing_option)
          ≡ ok (chosen, p)
        → (mapped options chosen ≡ ok p) × Chosen options t chosen
    fallen e true c f =
        let (q, g, k) =
          bind-eq-ok {B = String × (String × String)} (mapped options "default")
            (λ p. ok ("default", p)) f in
        let pair = ok_injective k in
        let same : "default" ≡ chosen = ap (λ r. r.0) pair in
        (
          rw (← same) (g ∙ ap (λ r. ok r.1) pair),
          inr ((eq_iff t "RootSoftwareInstance").0 c, sym same, e),
        )
    fallen e false c f = cc

    go :
        (o : Outcome (String × String))
        → mapped options t ≡ o
        → (elim o as (λ _. Outcome (String × (String × String))) [
          | ok p ↦ ok (t, p)
          | raised missing_option ↦
              let fallback =
                bind {B = String × (String × String)}
                  (mapped options "default")
                  (λ p. ok ("default", p)) in
              if str_eq t "RootSoftwareInstance" then fallback else raised missing_option
          | raised value_error ↦ raised user_error
          | raised e ↦ raised e
        ])
          ≡ ok (chosen, p)
        → (mapped options chosen ≡ ok p) × Chosen options t chosen
    go (ok q) e f =
        let pair = ok_injective f in
        (rw (← (ap (λ r. r.0) pair)) (e ∙ ap (λ r. ok r.1) pair), inl (sym (ap (λ r. r.0) pair)))
    go (raised missing_option) e f = fallen e (str_eq t "RootSoftwareInstance") refl f
    go (raised e₁) e f = cc

-- A recipe that initializes has the profile that its software type is mapped to, and that type is
-- the one that was asked for, or `default` when a root instance was asked for and has no mapping.
pub init-Chosen :
    (sections : Sections) (name : String) (options : Options) (r : Recipe)
    → init sections name options ≡ ok r
    → (t section key : String) × (requested_type sections ≡ ok t)
      × Chosen options t r.software_type
      × (mapped options r.software_type ≡ ok (section, key))
      × (value_of sections section key ≡ ok r.base)
unfolding init
init-Chosen sections name options r h =
    let (t, e, f) = bind-eq-ok (requested_type sections) _ h in
    let ((chosen, p), g, k) = bind-eq-ok (choose options t) _ f in
    let (base, i, j) = bind-eq-ok (value_of sections p.0 p.1) _ k in
    let same = ok_injective j in
    let (m, c) = choose-Chosen options t chosen p g in rw (← same) (t, p.0, p.1, e, c, m, i)
