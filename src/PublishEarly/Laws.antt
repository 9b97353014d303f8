-- ===== src/PublishEarly/Laws.antt =====
-- Lemmas on slapos/recipe/publish_early.py.
use slapos_abilian_edge.Base.{String, ◌≡◌, refl, sym, ap, ◌∙◌, ◌⊎◌, inl, inr, Bool, true, false}
use slapos_abilian_edge.Base.{not, ◌||◌, Option, none, some, List, [], ◌∷◌, ◌++◌, arith, str_eq}
use slapos_abilian_edge.Base.{if◌then◌else◌, Bool-cases, contains, contains-append}
use slapos_abilian_edge.Base.Dict.{lookup, insert, erase, has, keys, lookup-insert, lookup-erase}
use slapos_abilian_edge.Base.Dict.{has-keys}
use slapos_abilian_edge.Base.Py.{user_error, Outcome, ok, raised, bind-eq-ok, ok_injective}
use slapos_abilian_edge.Base.Str.{lines}
use slapos_abilian_edge.PublishEarly.{
  Values, Buildout, Init, State, Result, parse_init, overrides, take_values, same_dict,
  process_section, process_sections, result_of, run_init, early, saved,
}

-- From the options `o` and the dictionary `d` to `o₁` and `d₁`: each key either has one value in
-- both, or was not touched.
has_eq : (k : String) (d e : Values) → lookup k d ≡ lookup k e → has k d ≡ true → has k e ≡ true
has_eq k d e q h = rw (has, ← q) h

has-some : (k : String) (d : Values) (v : String) → lookup k d ≡ some v → has k d ≡ true
has-some k d v q = rw (has, q) refl

abbrev Step : Values → Values → Values → Values → Type 0
Step o d o₁ d₁ =
    (k : String)
    → ((has k d₁ ≡ true) × (lookup k o₁ ≡ lookup k d₁))
      ⊎ ((lookup k o₁ ≡ lookup k o) × (lookup k d₁ ≡ lookup k d))

Step-refl : (o d : Values) → Step o d o d
Step-refl o d k = inr (refl, refl)

Step-trans : (o d o₁ d₁ o₂ d₂ : Values) → Step o d o₁ d₁ → Step o₁ d₁ o₂ d₂ → Step o d o₂ d₂
Step-trans o d o₁ d₁ o₂ d₂ f g k = elim (g k) [
  | inl b ↦ inl b
  | inr (p, q) ↦ elim (f k) [
    | inl (h, e) ↦ inl (has_eq k d₁ d₂ (sym q) h, p ∙ (e ∙ sym q))
    | inr (r, s) ↦ inr (p ∙ r, q ∙ s)
  ]
]

Step-insert : (o d : Values) (j v : String) → Step o d (insert j v o) (insert j v d)
Step-insert o d j v k = elim (Bool-cases (str_eq j k)) [
  | inl c ↦
      let e : lookup k (insert j v d) ≡ some v = lookup-insert j k v d ∙ rw c refl in
      inl (has-some k (insert j v d) v e, (lookup-insert j k v o ∙ rw c refl) ∙ sym e)
  | inr c ↦ inr (lookup-insert j k v o ∙ rw c refl, lookup-insert j k v d ∙ rw c refl)
]

take_values-Step :
    (init section new o d : Values)
    → let t = take_values init section new o d in Step o d t.1.1.0 t.1.1.1
unfolding take_values
take_values-Step [] section new o d = Step-refl o d
take_values-Step ((k, v) ∷ init) section new o d = go (lookup v section) (take_values-Step init)
  where
    go :
        (l : Option String)
        → ((section new o d : Values)
            → let t = take_values init section new o d in Step o d t.1.1.0 t.1.1.1)
        → let t : Values × (Values × (Values × Values)) = elim l [
          | some value ↦
              take_values init
                (erase v section)
                (insert v value new)
                (insert k value o)
                (insert k value d)
          | none ↦ take_values init section new o d
        ] in
          Step o d t.1.1.0 t.1.1.1
    go none ih = ih section new o d
    go (some value) ih =
        let t =
          take_values init (erase v section) (insert v value new) (insert k value o)
            (insert k value d) in
        Step-trans o d (insert k value o) (insert k value d) t.1.1.0 t.1.1.1
          (Step-insert o d k value)
          (ih (erase v section) (insert v value new) (insert k value o) (insert k value d))

process_section-Step :
    (B : Buildout) (published : Values) (name : String) (init : Values) (s s₁ : State)
    → process_section B published name init s ≡ ok s₁
    → Step s.options s.publish_dict s₁.options s₁.publish_dict
unfolding process_section
process_section-Step B published name init s s₁ h =
    go (B.initialize name (overrides published init [])) h
  where
    go :
        (i : Option Values)
        → (elim i as (λ _. Outcome State) [
          | none ↦ raised user_error
          | some section ↦
              let taken = take_values init section [] s.options s.publish_dict in
              ok (record {
                options = taken.1.1.0;
                publish_dict = taken.1.1.1;
                publish = s.publish || not (same_dict taken.1.0 (overrides published init []));
              })
        ])
          ≡ ok s₁
        → Step s.options s.publish_dict s₁.options s₁.publish_dict
    go none f = cc
    go (some section) f =
        let e = ok_injective f in
        rw (← e) (take_values-Step init section [] s.options s.publish_dict)

process_sections-Step :
    (B : Buildout) (published : Values) (init : Init) (s s₁ : State)
    → process_sections B published init s ≡ ok s₁
    → Step s.options s.publish_dict s₁.options s₁.publish_dict
unfolding process_sections
process_sections-Step B published [] s s₁ h =
    rw (← (ok_injective h)) (Step-refl s.options s.publish_dict)
process_sections-Step B published ((name, init) ∷ rest) s s₁ h =
    let (s₂, e, f) =
      bind-eq-ok (process_section B published name init s)
        (λ s₂. process_sections B published rest s₂) h in
    Step-trans s.options s.publish_dict s₂.options s₂.publish_dict s₁.options s₁.publish_dict
      (process_section-Step B published name init s s₂ e)
      (process_sections-Step B published rest s₂ s₁ f)

-- What is saved has no option that is volatile, and all others as they are.
saved_lem :
    (volatile : List String) (o : Values) (k : String)
    → lookup k (saved volatile o) ≡ (if contains volatile k then none else lookup k o)
unfolding saved
saved_lem [] o k = refl
saved_lem (j ∷ volatile) o k =
    saved_lem volatile (erase j o) k ∙ rw (lookup-erase j k o) (ground arith)

-- What the result has of each key: its value is what is sent, and it is volatile, or the value is
-- the one before.
abbrev Kept : Values → Result → Type 0
Kept o r =
    ((k : String)
      → (lookup k (saved r.volatile r.options) ≡ none)
        ⊎ (lookup k (saved r.volatile r.options) ≡ lookup k o))
    × ((d : Values) (k v : String)
        → r.sent ≡ some d
        → lookup k d ≡ some v
        → lookup k r.options ≡ some v)

contains-volatile :
    (d : Values) (k : String) → has k d ≡ true → contains (keys d ++ "-publish" ∷ []) k ≡ true
contains-volatile d k h = contains-append (keys d) ("-publish" ∷ []) k ∙ rw (has-keys d k, h) refl

sent_lem : (s : State) (d : Values) → (result_of s).sent ≡ some d → s.publish_dict ≡ d
unfolding result_of
sent_lem s d h = go s.publish h
  where
    go : (b : Bool) → (if b then some s.publish_dict else none) ≡ some d → s.publish_dict ≡ d
    go true q = cc
    go false q = cc

saved_key :
    (o : Values) (s : State) (k : String)
    → Step o [] s.options s.publish_dict
    → let volatile = keys s.publish_dict ++ "-publish" ∷ [] in
      (lookup k (saved volatile s.options) ≡ none)
      ⊎ (lookup k (saved volatile s.options) ≡ lookup k o)
saved_key o s k f =
    let volatile = keys s.publish_dict ++ "-publish" ∷ [] in
    let e = saved_lem volatile s.options k in
    elim (Bool-cases (contains volatile k)) [
      | inl c ↦ inl (e ∙ rw c refl)
      | inr c ↦ elim (f k) [
        | inl (h, p) ↦ inl (e ∙ rw (contains-volatile s.publish_dict k h) refl)
        | inr (p, n) ↦ inr (e ∙ rw c p)
      ]
    ]

sent_key :
    (o : Values) (s : State) (d : Values) (k v : String)
    → Step o [] s.options s.publish_dict
    → s.publish_dict ≡ d
    → lookup k d ≡ some v
    → lookup k s.options ≡ some v
unfolding lookup
sent_key o s d k v f q e = elim (f k) [
  | inl (h, p) ↦ p ∙ (ap (lookup k) q ∙ e)
  | inr (p, n) ↦ let stuck : none ≡ some v = sym n ∙ (ap (lookup k) q ∙ e) in cc
]

result_of-Kept :
    (o : Values) (s : State) → Step o [] s.options s.publish_dict → Kept o (result_of s)
unfolding result_of
result_of-Kept o s f =
    (λ k. saved_key o s k f, λ d k v h e. sent_key o s d k v f (sent_lem s d h) e)

run_init-Kept :
    (B : Buildout) (published o : Values) (init : Init) (r : Result)
    → run_init B published o init ≡ ok r
    → Kept o r
unfolding run_init saved
run_init-Kept B published o [] r h = rw (← (ok_injective h)) (λ k. inr refl, λ d k v q e. cc)
run_init-Kept B published o (section ∷ sections) r h =
    let s₀ : State = record { options = o; publish_dict = []; publish = false } in
    let (s, e, f) =
      bind-eq-ok (process_sections B published (section ∷ sections) s₀) (λ s. ok (result_of s)) h in
    rw (← (ok_injective f))
      (result_of-Kept o s (process_sections-Step B published (section ∷ sections) s₀ s e))

-- When the early publication ends without an exception, a key of the options that are saved is
-- absent or has the value that it had before: what was generated, or taken from the Master, is
-- not saved. And every value that is sent to the Master is the one that the options have.
pub early-saved :
    (B : Buildout) (published : Values) (lines : String) (o : Values) (r : Result)
    → early B published lines o ≡ ok r
    → ((k : String)
        → (lookup k (saved r.volatile r.options) ≡ none)
          ⊎ (lookup k (saved r.volatile r.options) ≡ lookup k o))
      × ((d : Values) (k v : String)
          → r.sent ≡ some d
          → lookup k d ≡ some v
          → lookup k r.options ≡ some v)
unfolding early
early-saved B published text o r h =
    let (init, e, f) =
      bind-eq-ok (parse_init o (lines text) []) (λ init. run_init B published o init) h in
    run_init-Kept B published o init r f
