-- ===== src/Request/Laws.antt =====
-- Lemmas on slapos/recipe/request.py.
use slapos_abilian_edge.Base.{String, ◌<>◌, ◌≡◌, refl, sym, ap, ◌∙◌, ◌≢◌, ◌↔◌, inl, inr, Bool, true}
use slapos_abilian_edge.Base.{false, Option, none, some, List, [], ◌∷◌, arith, str_eq, eq_iff}
use slapos_abilian_edge.Base.{if◌then◌else◌, Bool-cases, contains}
use slapos_abilian_edge.Base.Dict.{Dict, lookup, insert, lookup-insert}
use slapos_abilian_edge.Base.Py.{Exc, key_error, not_found, server_error, resource_not_ready}
use slapos_abilian_edge.Base.Py.{Outcome, ok, raised, bind, bind-eq-ok, ok_injective}
use text.Mathlib.TextLemmas.{append_cancel_left}
use slapos_abilian_edge.Request.{
  Options, Instance, Wanted, Master, Answer, return_parameter_dict, connected, connection_options,
  passed_on, option_or, default_state, install, look, ask, finish, keep_exception, no_answer,
  answer_of, answered, identify, tolerated,
}

-- The value of a parameter, empty if it is not there.
abbrev value : Dict String → String → String
value d p = elim (lookup p d) [ some v ↦ v | none ↦ "" ]

value_lem : (d : Dict String) (p v : String) → lookup p d ≡ some v → lookup p d ≡ some (value d p)
value_lem d p v e = e ∙ ap (λ (l : Option String). some (elim l [ some w ↦ w | none ↦ "" ])) (sym e)

-- The parameters that are kept are the instance's.
return_parameter_dict_lem :
    (i : Instance) (ps : List String) (d : Dict String) (p v : String)
    → return_parameter_dict i ps ≡ ok d
    → lookup p d ≡ some v
    → i.get_connection_parameter p ≡ ok v
unfolding return_parameter_dict lookup
return_parameter_dict_lem i [] d p v h k = cc
return_parameter_dict_lem i (q ∷ ps) d p v h k =
    go (i.get_connection_parameter q) refl h (λ d₁. return_parameter_dict_lem i ps d₁ p v)
  where
    kept :
        (d₁ : Dict String) (w : String)
        → i.get_connection_parameter q ≡ ok w
        → (if str_eq q p then some w else lookup p d₁) ≡ some v
        → (lookup p d₁ ≡ some v → i.get_connection_parameter p ≡ ok v)
        → i.get_connection_parameter p ≡ ok v
    kept d₁ w e g ih = elim (Bool-cases (str_eq q p)) [
      | inl c ↦ let v_eq : some w ≡ some v = rw c at g in cc (rw ((eq_iff q p).0 c) at e)
      | inr c ↦ ih (rw c at g)
    ]

    go :
        (o : Outcome String)
        → i.get_connection_parameter q ≡ o
        → (elim o [
          | ok w ↦ bind (return_parameter_dict i ps) (λ d₁. ok (insert q w d₁))
          | raised not_found ↦ return_parameter_dict i ps
          | raised e ↦ raised e
        ])
          ≡ ok d
        → ((d₁ : Dict String)
            → return_parameter_dict i ps ≡ ok d₁
            → lookup p d₁ ≡ some v
            → i.get_connection_parameter p ≡ ok v)
        → i.get_connection_parameter p ≡ ok v
    go (ok w) e h₁ ih =
        let (d₁, f, g) = bind-eq-ok (return_parameter_dict i ps) (λ d₁. ok (insert q w d₁)) h₁ in
        let k₁ : lookup p (insert q w d₁) ≡ some v = ap (lookup p) (ok_injective g) ∙ k in
        kept d₁ w e (sym (lookup-insert q p w d₁) ∙ k₁) (ih d₁ f)
    go (raised not_found) e h₁ ih = ih d h₁ k
    go (raised e₁) e h₁ ih = cc

connection_ne : (p q : String) → str_eq ("connection-" <> p) ("connection-" <> q) ≡ str_eq p q
connection_ne p q = ground (
  arith,
  eq_iff p q,
  eq_iff ("connection-" <> p) ("connection-" <> q),
  append_cancel_left "connection-" p q,
)

connected-lookup :
    (q p : String) (l failed : Option String) (o : Options)
    → lookup ("connection-" <> p) (connected q l failed o).1 ≡ (
        if str_eq q p
        then some (elim l [ some v ↦ v | none ↦ "" ])
        else lookup ("connection-" <> p) o)
unfolding connected
connected-lookup q p (some v) failed o =
    lookup-insert ("connection-" <> q) ("connection-" <> p) v o ∙ rw (connection_ne q p)
connected-lookup q p none none o =
    lookup-insert ("connection-" <> q) ("connection-" <> p) "" o ∙ rw (connection_ne q p)
connected-lookup q p none (some r) o =
    lookup-insert ("connection-" <> q) ("connection-" <> p) "" o ∙ rw (connection_ne q p)

-- The name that is kept once there is one stays.
connected-failed :
    (q r : String) (l : Option String) (o : Options) → (connected q l (some r) o).0 ≡ some r
unfolding connected
connected-failed q r (some v) o = refl
connected-failed q r none o = refl

connection_options-kept :
    (d : Dict String) (ps : List String) (r : String) (o : Options)
    → (connection_options d ps (some r) o).0 ≡ some r
unfolding connection_options
connection_options-kept d [] r o = refl
connection_options-kept d (p ∷ ps) r o =
    rw (connection_options, connected-failed p r (lookup p d) o)
      (connection_options-kept d ps r (connected p (lookup p d) (some r) o).1)

connection_options-lookup_other :
    (d : Dict String) (ps : List String) (failed : Option String) (o : Options) (p : String)
    → contains ps p ≡ false
    → lookup ("connection-" <> p) (connection_options d ps failed o).1
      ≡ lookup ("connection-" <> p) o
unfolding connection_options
connection_options-lookup_other d [] failed o p h = refl
connection_options-lookup_other d (q ∷ ps) failed o p h =
    let step = connected q (lookup q d) failed o in
    let e : str_eq q p ≡ false = ground arith in
    connection_options-lookup_other d ps step.0 step.1 p (ground arith)
    ∙ (connected-lookup q p (lookup q d) failed o ∙ rw e refl)

-- Each parameter has its option.
connection_options-lookup :
    (d : Dict String) (ps : List String) (failed : Option String) (o : Options) (p : String)
    → contains ps p ≡ true
    → lookup ("connection-" <> p) (connection_options d ps failed o).1 ≡ some (value d p)
unfolding connection_options
connection_options-lookup d [] failed o p h = cc
connection_options-lookup d (q ∷ ps) failed o p h =
    let step = connected q (lookup q d) failed o in
    elim (Bool-cases (contains ps p)) [
      | inl c ↦ connection_options-lookup d ps step.0 step.1 p c
      | inr c ↦
          let same : str_eq q p ≡ true = ground arith in
          connection_options-lookup_other d ps step.0 step.1 p c
          ∙ (connected-lookup q p (lookup q d) failed o ∙ (rw same (rw ((eq_iff q p).0 same) refl)))
    ]

-- No name is kept only when no parameter is missing.
connection_options-failed :
    (d : Dict String) (ps : List String) (o : Options) (p : String)
    → (connection_options d ps none o).0 ≡ none
    → contains ps p ≡ true
    → lookup p d ≡ some (value d p)
unfolding connection_options connected
connection_options-failed d [] o p h k = cc
connection_options-failed d (q ∷ ps) o p h k =
    go (lookup q d) refl h (λ o₁ f c. connection_options-failed d ps o₁ p f c)
  where
    go :
        (l : Option String)
        → lookup q d ≡ l
        → (connection_options d ps (connected q l none o).0 (connected q l none o).1).0 ≡ none
        → ((o₁ : Options)
            → (connection_options d ps none o₁).0 ≡ none
            → contains ps p ≡ true
            → lookup p d ≡ some (value d p))
        → lookup p d ≡ some (value d p)
    go none e f ih =
        cc (rw (connection_options-kept d ps q (insert ("connection-" <> q) "" o)) at f)
    go (some v) e f ih = elim (Bool-cases (str_eq q p)) [
      | inl c ↦ rw (← ((eq_iff q p).0 c)) (value_lem d q v e)
      | inr c ↦ ih (insert ("connection-" <> q) v o) f (ground arith)
    ]

false_ne : false ≢ true
false_ne h = cc

started_ne : ◌≢◌ {A = String} "started" "stopped"
started_ne h = false_ne ((eq_iff "started" "stopped").1 h)

stopped_ne : (s : String) → str_eq s "stopped" ≡ false → s ≢ "stopped"
stopped_ne s k h = false_ne (sym k ∙ (eq_iff s "stopped").1 h)

passed_on_lem :
    (s : String)
    → ((passed_on s ≡ "stopped") ↔ (s ≡ "stopped")) × ((s ≢ "stopped") → passed_on s ≡ "started")
unfolding passed_on
passed_on_lem s = elim (Bool-cases (str_eq s "started")) [
  | inl c ↦ rw c ((λ h. h, λ h. h), λ h. (eq_iff s "started").0 c)
  | inr c ↦ rw c (elim (Bool-cases (str_eq s "stopped")) [
    | inl k ↦ rw k ((λ h. h, λ h. h), λ h. elim (h ((eq_iff s "stopped").0 k)) [ ])
    | inr k ↦ rw k ((λ h. elim (started_ne h) [ ], λ h. elim (stopped_ne s k h) [ ]), λ h. refl)
  ])
]

-- The state that is asked for by default is the requester's own, but that of a requester which is
-- being destroyed is never passed on: it is `stopped` exactly when the requester's is, and
-- `started` for all others.
default_state-inherits :
    (conn : Options)
    → ((default_state conn ≡ "stopped") ↔ (lookup "requested" conn ≡ some "stopped"))
      × ((lookup "requested" conn ≢ some "stopped") → default_state conn ≡ "started")
unfolding default_state option_or
default_state-inherits conn = go (lookup "requested" conn)
  where
    go :
        (l : Option String)
        → ((passed_on (elim l [ some v ↦ v | none ↦ "started" ]) ≡ "stopped")
            ↔ (l ≡ some "stopped"))
          × ((l ≢ some "stopped")
              → passed_on (elim l [ some v ↦ v | none ↦ "started" ]) ≡ "started")
    go none = ((λ h. cc, λ h. cc), λ h. refl)
    go (some s) = (
      (λ h. ap some ((passed_on_lem s).0.0 h), λ h. (passed_on_lem s).0.1 (cc)),
      λ h. (passed_on_lem s).1 λ e. h (ap some e),
    )

-- An exception that is kept makes the installation fail.
keep_exception_lem :
    (e : Exc) (i : Option Instance) (o : Options) (a : Answer)
    → keep_exception e i o ≡ ok a
    → a ≡ no_answer e i o
unfolding keep_exception
keep_exception_lem not_found i o a h = sym (ok_injective h)
keep_exception_lem server_error i o a h = sym (ok_injective h)
keep_exception_lem resource_not_ready i o a h = sym (ok_injective h)
keep_exception_lem e i o a h = cc

no_answer_fails :
    (e : Exc) (i : Option Instance) (o : Options) (ps : List String) (a : Answer)
    → a ≡ no_answer e i o
    → install (finish ps a).0 ≡ raised e
unfolding no_answer install finish
no_answer_fails e i o ps a h = rw h refl

keep_fails :
    (e : Exc) (i : Option Instance) (o : Options) (ps : List String) (a : Answer)
    → keep_exception e i o ≡ ok a
    → install (finish ps a).0 ≢ ok []
keep_fails e i o ps a h k = cc (rw (no_answer_fails e i o ps a (keep_exception_lem e i o a h)) at k)

-- An answer that installs is the instance's.
answer_of_lem :
    (shared : Bool) (i : Instance) (o : Options) (d : Dict String) (ps : List String) (a : Answer)
    → answer_of shared i o d ≡ ok a
    → install (finish ps a).0 ≡ ok []
    → (o₁ : Options) × (a ≡ answered i d o₁)
unfolding answer_of
answer_of_lem true i o d ps a h k = (o, sym (ok_injective h))
answer_of_lem false i o d ps a h k = go (tolerated (identify i o)) h
  where
    go :
        (t : Outcome Options)
        → (elim t as (λ _. Outcome Answer) [
          | ok o₁ ↦ ok (answered i d o₁)
          | raised e ↦ keep_exception e (some i) (identify i o).1
        ])
          ≡ ok a
        → (o₁ : Options) × (a ≡ answered i d o₁)
    go (ok o₁) q = (o₁, sym (ok_injective q))
    go (raised e) q = elim (keep_fails e (some i) (identify i o).1 ps a q k) [ ]

look_fails : (i : Option Instance) → bind {B = List String} (look i) (λ _. raised key_error) ≢ ok []
look_fails i h = let (s, e, f) = bind-eq-ok (look i) (λ _. raised key_error) h in cc

answered_failed :
    (i : Instance) (d : Dict String) (o : Options) (ps : List String)
    → install (finish ps (answered i d o)).0 ≡ ok []
    → (connection_options d ps none o).0 ≡ none
unfolding install finish answered
answered_failed i d o ps h = go (connection_options d ps none o).0 h
  where
    go :
        (f : Option String)
        → (elim f as (λ _. Outcome (List String)) [
          | none ↦ ok []
          | some p ↦ bind (look (some i)) (λ _. raised key_error)
        ])
          ≡ ok []
        → f ≡ none
    go none q = refl
    go (some p) q = elim (look_fails (some i) q) [ ]

answered_options :
    (i : Instance) (d : Dict String) (o : Options) (ps : List String)
    → (finish ps (answered i d o)).1 ≡ (connection_options d ps none o).1
unfolding finish answered
answered_options i d o ps = refl

-- After a request that ended without an exception that escapes, `install` succeeds only if the
-- Master gave an instance, each parameter of `return` was read from it, and each has its value in
-- its `connection-` option.
pub install_sound :
    (M : Master) (w : Wanted) (ps : List String) (o : Options) (a : Answer)
    → ask M w ps o ≡ ok a
    → install (finish ps a).0 ≡ ok []
    → (i : Instance) × (M.request w ≡ ok i)
      × ((p : String)
          → contains ps p ≡ true
          → (v : String) × (i.get_connection_parameter p ≡ ok v)
            × (lookup ("connection-" <> p) (finish ps a).1 ≡ some v))
unfolding ask
install_sound M w ps o a h k = asked (M.request w) refl h
  where
    Read : Instance → Type 0
    Read i =
        (p : String)
        → contains ps p ≡ true
        → (v : String) × (i.get_connection_parameter p ≡ ok v)
          × (lookup ("connection-" <> p) (finish ps a).1 ≡ some v)

    read :
        (i : Instance) (d : Outcome (Dict String))
        → return_parameter_dict i ps ≡ d
        → (elim d as (λ _. Outcome Answer) [
          | raised e ↦ keep_exception e (some i) o
          | ok parameters ↦ answer_of w.shared i o parameters
        ])
          ≡ ok a
        → Read i
    read i (raised e) q f = elim (keep_fails e (some i) o ps a f k) [ ]
    read i (ok d) q f = λ p c.
        let (o₁, g) = answer_of_lem w.shared i o d ps a f k in
        let none_failed = answered_failed i d o₁ ps (rw g at k) in
        let found = connection_options-failed d ps o₁ p none_failed c in
        (
          value d p,
          return_parameter_dict_lem i ps d p (value d p) q found,
          rw g (rw (answered_options i d o₁ ps) (connection_options-lookup d ps none o₁ p c)),
        )

    asked :
        (r : Outcome Instance)
        → M.request w ≡ r
        → (elim r as (λ _. Outcome Answer) [
          | raised e ↦ keep_exception e none o
          | ok i ↦ elim (return_parameter_dict i ps) as (λ _. Outcome Answer) [
            | raised e ↦ keep_exception e (some i) o
            | ok parameters ↦ answer_of w.shared i o parameters
          ]
        ])
          ≡ ok a
        → (i : Instance) × (r ≡ ok i) × Read i
    asked (raised e) q f = elim (keep_fails e none o ps a f k) [ ]
    asked (ok i) q f = (i, refl, read i (return_parameter_dict i ps) refl f)
