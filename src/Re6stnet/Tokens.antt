-- ===== src/Re6stnet/Tokens.antt =====
-- Lemmas on `generateSlaveTokenList` of slapos/recipe/re6stnet/__init__.py.
use slapos_abilian_edge.Base.{ℕ, suc, String, ◌≡◌, refl, sym, ap, ◌∙◌, inl, inr, Bool, true, false}
use slapos_abilian_edge.Base.{◌&&◌, Option, none, some, List, [], ◌∷◌, ◌++◌, arith, str_eq, eq_iff}
use slapos_abilian_edge.Base.{if◌then◌else◌, Bool-cases, Option-cases, contains}
use slapos_abilian_edge.Base.Dict.{lookup, insert, has, lookup-insert}
use slapos_abilian_edge.Base.Py.{ok, bind-eq-ok, ok_injective}
use slapos_abilian_edge.Base.Text.{Text, codes}
use slapos_abilian_edge.Re6stnet.{
  generated, Tokens, Sample, Generated, number_of, add_tokens, drop_tokens,
  generate_slave_token_list,
}

-- What the loop that adds does with one reference.
abbrev Added : List String → String → Tokens → Tokens → Tokens → Tokens → Type 0
Added references k tokens to_add tokens₁ to_add₁ =
    ((t : Text)
      → lookup k tokens ≡ some t
      → (lookup k tokens₁ ≡ some t) × (lookup k to_add₁ ≡ lookup k to_add))
    × (lookup k tokens ≡ none
        → lookup k to_add ≡ none
        → (lookup k to_add₁ ≡ lookup k tokens₁) × (has k tokens₁ ≡ contains references k))

has-some : (k : String) (d : Tokens) (t : Text) → lookup k d ≡ some t → has k d ≡ true
has-some k d t e = rw (has, e) refl

has-none : (k : String) (d : Tokens) → lookup k d ≡ none → has k d ≡ false
has-none k d e = rw (has, e) refl

known : (k : String) (d : Tokens) → has k d ≡ true → (t : Text) × (lookup k d ≡ some t)
known k d h = elim (Option-cases (lookup k d)) [
  | inl e ↦ let stuck : false ≡ true = sym (has-none k d e) ∙ h in cc
  | inr e ↦ e
]

-- A reference that has a token already.
Added-known :
    (j : String) (js : List String) (k : String) (d a d₁ a₁ : Tokens)
    → has j d ≡ true
    → Added js k d a d₁ a₁
    → Added (j ∷ js) k d a d₁ a₁
Added-known j js k d a d₁ a₁ h (f, g) = (
  f,
  λ e q. elim (Bool-cases (str_eq j k)) [
    | inl c ↦
        let b : has k d ≡ true = rw ((eq_iff j k).0 c) at h in
        let stuck : false ≡ true = sym (has-none k d e) ∙ b in cc
    | inr c ↦ rw c (g e q)
  ],
)

-- A reference that gets one.
Added-new :
    (j : String) (js : List String) (k : String) (t : Text) (d a d₁ a₁ : Tokens)
    → has j d ≡ false
    → Added js k (insert j t d) (insert j t a) d₁ a₁
    → Added (j ∷ js) k d a d₁ a₁
Added-new j js k t d a d₁ a₁ h (f, g) = elim (Bool-cases (str_eq j k)) [
  | inl c ↦
      let b : has k d ≡ false = rw ((eq_iff j k).0 c) at h in
      let p : lookup k (insert j t d) ≡ some t = lookup-insert j k t d ∙ rw c refl in
      let q : lookup k (insert j t a) ≡ some t = lookup-insert j k t a ∙ rw c refl in
      let (u, v) = f t p in
      (
        λ t₁ e. let stuck : false ≡ true = sym b ∙ has-some k d t₁ e in cc,
        λ e₀ e₁. ((v ∙ q) ∙ sym u, has-some k d₁ t u ∙ rw c refl),
      )
  | inr c ↦
      let p : lookup k (insert j t d) ≡ lookup k d = lookup-insert j k t d ∙ rw c refl in
      let q : lookup k (insert j t a) ≡ lookup k a = lookup-insert j k t a ∙ rw c refl in
      (
        λ t₁ e. let (u, v) = f t₁ (p ∙ e) in (u, v ∙ q),
        λ e₀ e₁. let (u, v) = g (p ∙ e₀) (q ∙ e₁) in (u, v ∙ rw c refl),
      )
]

add_tokens-Added :
    (sample : Sample) (n : ℕ) (js : List String) (k : String) (d a d₁ a₁ : Tokens)
    → add_tokens sample n js d a ≡ ok (d₁, a₁)
    → Added js k d a d₁ a₁
unfolding add_tokens
add_tokens-Added sample n [] k d a d₁ a₁ h =
    let e = ok_injective h in
    let p : d ≡ d₁ = ap (λ q. q.0) e in
    let q : a ≡ a₁ = ap (λ q. q.1) e in
    rw (← p) (rw (← q) (λ t e. (e, refl), λ e f. (f ∙ sym e, has-none k d e)))
add_tokens-Added sample n (j ∷ js) k d a d₁ a₁ h = elim (Bool-cases (has j d)) [
  | inl c ↦ Added-known j js k d a d₁ a₁ c (add_tokens-Added sample n js k d a d₁ a₁ (rw c at h))
  | inr c ↦
      let (number, e, f) =
        bind-eq-ok (number_of j)
          (λ number.
            let token = codes number ++ sample n in
            add_tokens sample (suc n) js (insert j token d) (insert j token a))
          (rw c at h) in
      let token = codes number ++ sample n in
      Added-new j js k token d a d₁ a₁ c
        (add_tokens-Added sample (suc n) js k (insert j token d) (insert j token a) d₁ a₁ f)
]

drop_tokens-lookup :
    (references : List String) (tokens : Tokens) (k : String)
    → (lookup k (drop_tokens references tokens).0
        ≡ (if contains references k then lookup k tokens else none))
      × (lookup k (drop_tokens references tokens).1
          ≡ (if contains references k then none else lookup k tokens))
unfolding drop_tokens lookup
drop_tokens-lookup references [] k = ground arith
drop_tokens-lookup references ((j, t) ∷ tokens) k =
    ground (arith, drop_tokens-lookup references tokens k, eq_iff j k)

abbrev Right : List String → Tokens → String → Generated → Type 0
Right references saved k g =
    (has k g.token_dict ≡ contains references k)
    × ((t : Text)
        → lookup k saved ≡ some t
        → lookup k g.token_dict ≡ (if contains references k then some t else none))
    × (lookup k g.to_add_dict ≡ (if has k saved then none else lookup k g.token_dict))
    × (lookup k g.to_remove_dict ≡ (if contains references k then none else lookup k saved))

has_if :
    (b : Bool) (k : String) (d e : Tokens)
    → lookup k e ≡ (if b then lookup k d else none)
    → has k e ≡ (b && has k d)
has_if true k d e h = rw (has, h) refl
has_if false k d e h = rw (has, h) refl

and_true : (b : Bool) → (b && true) ≡ b
and_true b = ground arith

and_same : (b : Bool) → (b && b) ≡ b
and_same b = ground arith

if_none : (b : Bool) → ◌≡◌ {A = Option Text} none (if b then none else none)
if_none true = refl
if_none false = refl

not_has : (k : String) (d : Tokens) → has k d ≡ false → lookup k d ≡ none
not_has k d h = elim (Option-cases (lookup k d)) [
  | inl e ↦ e
  | inr (t, e) ↦ let stuck : false ≡ true = sym h ∙ has-some k d t e in cc
]

if_has :
    (b : Bool) (k : String) (d : Tokens)
    → has k d ≡ b
    → (if b then lookup k d else none) ≡ lookup k d
if_has true k d h = refl
if_has false k d h = sym (not_has k d h)

none-has :
    (b : Bool) (k : String) (d : Tokens) → has k d ≡ b → (if b then none else lookup k d) ≡ none
none-has true k d h = refl
none-has false k d h = not_has k d h

-- A reference that was saved.
generated_saved :
    (references : List String) (saved d a : Tokens) (k : String) (t : Text)
    → lookup k saved ≡ some t
    → lookup k d ≡ some t
    → lookup k a ≡ none
    → Right references saved k (generated references (d, a))
unfolding generated
generated_saved references saved d a k t e u v =
    let (kept, gone) = drop_tokens-lookup references d k in
    let b = contains references k in
    let dropped = drop_tokens references d in
    (
      has_if b k d dropped.0 kept ∙ (rw (has-some k d t u) (and_true b)),
      λ t₁ e₁. kept ∙ ap (λ l. if b then l else none) (u ∙ (sym e ∙ e₁)),
      v ∙ rw (has-some k saved t e) refl,
      gone ∙ ap (λ l. if b then none else l) (u ∙ sym e),
    )

-- One that was not.
generated_new :
    (references : List String) (saved d a : Tokens) (k : String)
    → lookup k saved ≡ none
    → lookup k a ≡ lookup k d
    → has k d ≡ contains references k
    → Right references saved k (generated references (d, a))
unfolding generated
generated_new references saved d a k e u v =
    let (kept, gone) = drop_tokens-lookup references d k in
    let b = contains references k in
    let dropped = drop_tokens references d in
    let all : lookup k dropped.0 ≡ lookup k d = kept ∙ if_has b k d v in
    (
      has_if b k d dropped.0 kept ∙ (rw v (and_same b)),
      λ t₁ e₁. let stuck : none ≡ some t₁ = sym e ∙ e₁ in cc,
      (u ∙ sym all) ∙ rw (has-none k saved e) refl,
      gone ∙ (none-has b k d v ∙ rw e (if_none b)),
    )

generated_lem :
    (references : List String) (saved d a : Tokens) (k : String)
    → Added references k saved [] d a
    → Right references saved k (generated references (d, a))
unfolding lookup
generated_lem references saved d a k (f, g) = elim (Option-cases (lookup k saved)) [
  | inl e ↦ let (u, v) = g e refl in generated_new references saved d a k e u v
  | inr (t, e) ↦ let (u, v) = f t e in generated_saved references saved d a k t e u v
]

-- After a token list was made: the references that have a token are exactly those of the list; a
-- reference of the list that had one keeps it; the tokens to add are the new ones; the tokens to
-- remove are those that were saved for other references.
pub generate_slave_token_list_lem :
    (sample : Sample) (references : List String) (saved : Tokens) (g : Generated) (k : String)
    → generate_slave_token_list sample references saved ≡ ok g
    → (has k g.token_dict ≡ contains references k)
      × ((t : Text)
          → lookup k saved ≡ some t
          → lookup k g.token_dict ≡ (if contains references k then some t else none))
      × (lookup k g.to_add_dict ≡ (if has k saved then none else lookup k g.token_dict))
      × (lookup k g.to_remove_dict ≡ (if contains references k then none else lookup k saved))
unfolding generate_slave_token_list
generate_slave_token_list_lem sample references saved g k h =
    let ((d, a), e, f) =
      bind-eq-ok (add_tokens sample 0 references saved [])
        (λ added. ok (generated references added)) h in
    rw (← (ok_injective f))
      (generated_lem references saved d a k (add_tokens-Added sample 0 references k saved [] d a e))
