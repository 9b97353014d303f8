-- ===== src/SlapConfiguration/Schema/Defaults.antt =====
-- Lemmas on the defaults and the shared instances of slapos/recipe/slapconfiguration.py.
use slapos_abilian_edge.SlapConfiguration.Schema.{
  any_differs, apply_default, apply_defaults, Validator, SharedItem, Lists, check_shared, is_empty,
  sorted_in, sort_shared,
}
use slapos_abilian_edge.Base.{String, ◌≡◌, refl, sym, ap, ◌∙◌, ◌⊎◌, inl, inr, Bool, true, false}
use slapos_abilian_edge.Base.{some, List, [], ◌∷◌, str_eq, eq_iff, if◌then◌else◌, Bool-cases}
use slapos_abilian_edge.Base.Dict.{Dict, lookup, insert, has, lookup-insert}
use slapos_abilian_edge.Base.Py.{plain, Outcome, ok, raised, bind, bind-eq-ok, ok_injective}

module _ {J : Type 0} (differ : J → J → Bool) where
  -- A key of the parameters keeps its value.
  abbrev pub Extends : Dict J → Outcome (Dict J) → Type 0
  Extends before (raised e) = Unit {0}
  Extends before (ok after) =
      (k : String) (v : J) → lookup k before ≡ some v → lookup k after ≡ some v

  there : (k : String) (v : J) (d : Dict J) → lookup k d ≡ some v → has k d ≡ true
  there k v d e = rw (has, e) refl

  insert-Extends :
      (key : String) (d : J) (instance_data : Dict J)
      → has key instance_data ≡ false
      → Extends instance_data (ok (insert key d instance_data))
  insert-Extends key d instance_data h k v e =
      lookup-insert key k d instance_data ∙ go (Bool-cases (str_eq key k))
    where
      go :
          (str_eq key k ≡ true) ⊎ (str_eq key k ≡ false)
          → (if str_eq key k then some d else lookup k instance_data) ≡ some v
      go (inl q) =
          let r : true ≡ false = sym (there k v instance_data e) ∙ rw (← (eq_iff key k).0 q) h in cc
      go (inr q) = rw q e

  apply_default-Extends :
      (key : String) (ds : List J) (instance_data : Dict J)
      → Extends instance_data (apply_default differ key ds instance_data)
  apply_default-Extends key [] instance_data = go (has key instance_data)
    where
      go :
          (b : Bool)
          → Extends instance_data (if b then ok instance_data else raised (plain "StopIteration"))
      go true = λ k v e. e
      go false = tt
  apply_default-Extends key (d ∷ ds) instance_data =
      go (has key instance_data) refl (any_differs differ d ds)
    where
      go :
          (b : Bool)
          → has key instance_data ≡ b
          → (c : Bool)
          → Extends instance_data (
              if b
              then ok instance_data
              else if c
              then raised (plain "NameError")
              else ok (insert key d instance_data))
      go true h c = λ k v e. e
      go false h true = tt
      go false h false = insert-Extends key d instance_data h

  bind-Extends :
      (instance_data : Dict J) (q : Outcome (Dict J)) (f : Dict J → Outcome (Dict J))
      → Extends instance_data q
      → ((d : Dict J) → Extends d (f d))
      → Extends instance_data (bind q f)
  bind-Extends instance_data (raised e) f h k = tt
  bind-Extends instance_data (ok d) f h k = go (f d) (k d)
    where
      go : (r : Outcome (Dict J)) → Extends d r → Extends instance_data r
      go (raised e) x = tt
      go (ok d') x = λ k v e. x k v (h k v e)

  -- Whatever the defaults of a schema, a parameter that was given keeps its value.
  pub apply_defaults-Extends :
      (defaults : Dict (List J)) (instance_data : Dict J)
      → Extends instance_data (apply_defaults differ defaults instance_data)
  unfolding apply_defaults
  apply_defaults-Extends [] instance_data = λ k v e. e
  apply_defaults-Extends ((key, ds) ∷ defaults) instance_data =
      bind-Extends instance_data (apply_default differ key ds instance_data)
        (apply_defaults differ defaults) (apply_default-Extends key ds instance_data)
        (λ d. apply_defaults-Extends defaults d)

module _ {J E : Type 0} (differ : J → J → Bool) (set_shared : Bool) (V : Validator J E)
    (args : List E) where
  abbrev pub no_errors : List (SharedItem J E) → List (SharedItem J E)
  no_errors [] = []
  no_errors (s ∷ items) =
      let rest = no_errors items in if is_empty differ s.errors_found then s ∷ rest else rest

  abbrev pub with_errors : List (SharedItem J E) → List (SharedItem J E)
  with_errors [] = []
  with_errors (s ∷ items) =
      let rest = with_errors items in if is_empty differ s.errors_found then rest else s ∷ rest

  -- The items of the shared instances, one each and in their order.
  pub data Checked : List (Dict J) → List (SharedItem J E) → Type 0 where
    none_left : Checked [] []
    one_more :
        (s : Dict J) (shared_list : List (Dict J)) (x : SharedItem J E)
        (items : List (SharedItem J E))
        → check_shared differ set_shared V args s ≡ ok x
        → Checked shared_list items
        → Checked (s ∷ shared_list) (x ∷ items)

  sorted_in-no_errors :
      (x : SharedItem J E) (items : List (SharedItem J E))
      → sorted_in differ x (no_errors items, with_errors items)
        ≡ (no_errors (x ∷ items), with_errors (x ∷ items))
  sorted_in-no_errors x items = go (is_empty differ x.errors_found)
    where
      go :
          (b : Bool)
          → ◌≡◌ {A = Lists J E}
              (if b
                then (x ∷ no_errors items, with_errors items)
                else (no_errors items, x ∷ with_errors items))
              (
                if b then x ∷ no_errors items else no_errors items,
                if b then with_errors items else x ∷ with_errors items,
              )
      go true = refl
      go false = refl

  -- The lists of shared instances that are published: when no exception but a UserError came up,
  -- there is one item for each instance, and in the order of the instances the first list has
  -- exactly the items without errors and the second one those with errors.
  pub sort_shared-Checked :
      (shared_list : List (Dict J)) (lists : Lists J E)
      → sort_shared differ set_shared V args shared_list ≡ ok lists
      → (items : List (SharedItem J E)) × Checked shared_list items
        × (lists ≡ (no_errors items, with_errors items))
  unfolding sort_shared
  sort_shared-Checked [] lists h = ([], none_left, sym (ok_injective h))
  sort_shared-Checked (s ∷ shared_list) lists h =
      let (x, e, h₁) = bind-eq-ok (check_shared differ set_shared V args s) _ h in
      let (rest, f, h₂) = bind-eq-ok (sort_shared differ set_shared V args shared_list) _ h₁ in
      let (items, c, q) = sort_shared-Checked shared_list rest f in
      (
        x ∷ items,
        one_more s shared_list x items e c,
        sym (ok_injective h₂) ∙ (ap (sorted_in differ x) q ∙ sorted_in-no_errors x items),
      )
