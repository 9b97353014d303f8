-- ===== src/SlapConfiguration/Laws.antt =====
-- Lemmas on the options of slapos/recipe/slapconfiguration.py.
use slapos_abilian_edge.SlapConfiguration.{Value, json, add_resources, with_resources}
use slapos_abilian_edge.SlapConfiguration.Flatten.{
  leaf, folded, Items, no_item, item, dashes, flatten_from, flatten_dict, leaves,
}
use slapos_abilian_edge.Base.{String, ◌<>◌, ◌≡◌, refl, sym, ap, ◌∙◌, ◌≢◌, ◌⊎◌, inl, inr, Bool, true}
use slapos_abilian_edge.Base.{false, Option, none, some, [], ◌∷◌, ◌++◌, str_eq, eq_iff}
use slapos_abilian_edge.Base.{if◌then◌else◌, Bool-cases}
use slapos_abilian_edge.Base.Dict.{Dict, lookup, insert, has, lookup-insert, NodupKeys, update}

abbrev pub or_else {ℓ} : {A : Type ℓ} → Option A → Option A → Option A
or_else (some a) o = some a
or_else none o = o

-- The last value of a name in a list of names and values.
abbrev pub last {ℓ} : {A : Type ℓ} → String → Dict A → Option A
last k [] = none
last k ((j, v) ∷ d) = or_else (last k d) (if str_eq j k then some v else none)

str_eq_sym : (j k : String) → str_eq j k ≡ false → str_eq k j ≡ false
str_eq_sym j k h = go (Bool-cases (str_eq k j))
  where
    go : (str_eq k j ≡ true) ⊎ (str_eq k j ≡ false) → str_eq k j ≡ false
    go (inl e) =
        let q : j ≡ k = sym ((eq_iff k j).0 e) in
        let r : true ≡ false = sym ((eq_iff j k).1 q) ∙ h in cc
    go (inr e) = e

module _ {A : Type 0} where
  or_else-none : (o : Option A) → or_else o none ≡ o
  or_else-none none = refl
  or_else-none (some a) = refl

  or_else_assoc : (o p q : Option A) → or_else (or_else o p) q ≡ or_else o (or_else p q)
  or_else_assoc none p q = refl
  or_else_assoc (some a) p q = refl

  last-append : (k : String) (d e : Dict A) → last k (d ++ e) ≡ or_else (last k e) (last k d)
  last-append k [] e = sym (or_else-none (last k e))
  last-append k ((j, v) ∷ d) e =
      let one = if str_eq j k then some v else none in
      ap (λ o. or_else o one) (last-append k d e) ∙ or_else_assoc (last k e) (last k d) one

  lookup-insert-last :
      (k j : String) (v : A) (d : Dict A)
      → lookup k (insert j v d) ≡ or_else (if str_eq j k then some v else none) (lookup k d)
  lookup-insert-last k j v d = lookup-insert j k v d ∙ go (str_eq j k)
    where
      go :
          (b : Bool)
          → (if b then some v else lookup k d) ≡ or_else (if b then some v else none) (lookup k d)
      go true = refl
      go false = refl

  lookup-update :
      (k : String) (d e : Dict A) → lookup k (update d e) ≡ or_else (last k e) (lookup k d)
  unfolding update
  lookup-update k d [] = refl
  lookup-update k d ((j, v) ∷ e) =
      lookup-update k (insert j v d) e
      ∙ (ap (or_else (last k e)) (lookup-insert-last k j v d)
          ∙ sym (or_else_assoc (last k e) (if str_eq j k then some v else none) (lookup k d)))

  has-insert :
      (k j : String) (v : A) (d : Dict A)
      → str_eq k j ≡ false
      → has j d ≡ false
      → has j (insert k v d) ≡ false
  has-insert k j v d n h =
      let e : lookup j (insert k v d) ≡ lookup j d = lookup-insert k j v d ∙ rw n refl in
      rw (has, e) h

  not_there : (k : String) (d : Dict A) → has k d ≡ false → lookup k d ≡ none
  not_there k d h = go (lookup k d) h
    where
      go :
          (o : Option A)
          → (elim o as (λ _. Bool) [ none ↦ false | some _ ↦ true ]) ≡ false
          → o ≡ none
      go none e = refl
      go (some v) e = cc

  there : (k : String) (d : Dict A) → has k d ≡ true → lookup k d ≢ none
  there k d h e =
      let q : has k d ≡ false = rw (has, e) refl in let r : true ≡ false = sym h ∙ q in cc

  insert-NodupKeys : (k : String) (v : A) (d : Dict A) → NodupKeys d → NodupKeys (insert k v d)
  unfolding insert lookup
  insert-NodupKeys k v [] n = (refl, tt)
  insert-NodupKeys k v ((j, w) ∷ d) n = go (Bool-cases (str_eq j k)) (insert-NodupKeys k v d n.1)
    where
      go :
          (str_eq j k ≡ true) ⊎ (str_eq j k ≡ false)
          → NodupKeys (insert k v d)
          → NodupKeys (insert k v ((j, w) ∷ d))
      go (inl e) rec = rw e n
      go (inr e) rec = rw e (has-insert k j v d (str_eq_sym j k e) n.0, rec)

  update-NodupKeys : (d e : Dict A) → NodupKeys d → NodupKeys (update d e)
  unfolding update
  update-NodupKeys d [] n = n
  update-NodupKeys d ((j, v) ∷ e) n = update-NodupKeys (insert j v d) e (insert-NodupKeys j v d n)

  last-lookup : (k : String) (d : Dict A) → NodupKeys d → last k d ≡ lookup k d
  unfolding lookup
  last-lookup k [] n = refl
  last-lookup k ((j, v) ∷ d) n = go (Bool-cases (str_eq j k)) (last-lookup k d n.1)
    where
      go :
          (str_eq j k ≡ true) ⊎ (str_eq j k ≡ false)
          → last k d ≡ lookup k d
          → last k ((j, v) ∷ d) ≡ lookup k ((j, v) ∷ d)
      go (inl e) rec =
          let absent : lookup k d ≡ none = not_there k d (rw (← (eq_iff j k).0 e) n.0) in
          rw e (ap (λ o. or_else o (some v)) (rec ∙ absent))
      go (inr e) rec = rw e (or_else-none (last k d) ∙ rec)

module _ {J : Type 0} where
  flatten_from-NodupKeys :
      (key_prefix : String) (items : Items J) (output : Dict J)
      → NodupKeys output
      → NodupKeys (flatten_from key_prefix items output)
  unfolding flatten_from
  flatten_from-NodupKeys key_prefix no_item output n = n
  flatten_from-NodupKeys key_prefix (item key (leaf v) items) output n =
      flatten_from-NodupKeys key_prefix items (insert (key_prefix <> dashes key) v output)
        (insert-NodupKeys (key_prefix <> dashes key) v output n)
  flatten_from-NodupKeys key_prefix (item key (folded below) items) output n =
      flatten_from-NodupKeys key_prefix items _
        (update-NodupKeys output (flatten_from ((key_prefix <> dashes key) <> "-") below []) n)

  lookup-flatten_from :
      (k key_prefix : String) (items : Items J) (output : Dict J)
      → lookup k (flatten_from key_prefix items output)
        ≡ or_else (last k (leaves key_prefix items)) (lookup k output)
  unfolding flatten_from leaves lookup
  lookup-flatten_from k key_prefix no_item output = refl
  lookup-flatten_from k key_prefix (item key (leaf v) items) output =
      lookup-flatten_from k key_prefix items (insert (key_prefix <> dashes key) v output)
      ∙ (ap (or_else (last k (leaves key_prefix items)))
            (lookup-insert-last k (key_prefix <> dashes key) v output)
          ∙ sym (
              or_else_assoc (last k (leaves key_prefix items))
                (if str_eq (key_prefix <> dashes key) k then some v else none) (lookup k output)))
  lookup-flatten_from k key_prefix (item key (folded below) items) output =
      let name = (key_prefix <> dashes key) <> "-" in
      let inner = flatten_from name below [] in
      let rest = last k (leaves key_prefix items) in
      let found : last k inner ≡ last k (leaves name below) =
        last-lookup k inner (flatten_from-NodupKeys name below [] tt)
        ∙ (lookup-flatten_from k name below [] ∙ or_else-none (last k (leaves name below))) in
      lookup-flatten_from k key_prefix items (update output inner)
      ∙ (ap (or_else rest)
            (lookup-update k output inner ∙ ap (λ o. or_else o (lookup k output)) found)
          ∙ (sym (or_else_assoc rest (last k (leaves name below)) (lookup k output))
              ∙ ap (λ o. or_else o (lookup k output))
                  (sym (last-append k (leaves name below) (leaves key_prefix items)))))

  -- The options that resources add: those of the last leaf with a joined name.
  abbrev pub as_json : Option J → Option (Value J)
  as_json none = none
  as_json (some v) = some (json v)

  kept_case :
      (b : Bool) (o : Option (Value J)) (v : J) (rest : Option J)
      → (b ≡ true → o ≢ none)
      → or_else o (as_json rest) ≡ or_else o (as_json (if b then some v else rest))
  kept_case false o v rest h = refl
  kept_case true none v rest h = absurd (h refl refl)
  kept_case true (some w) v rest h = refl

  new_case :
      (b : Bool) (o : Option (Value J)) (v : J) (rest : Option J)
      → (b ≡ true → o ≡ none)
      → or_else (if b then some (json v) else o) (as_json rest)
        ≡ or_else o (as_json (if b then some v else rest))
  new_case false o v rest h = refl
  new_case true o v rest h = rw (h refl) refl

  lookup-add_resources :
      (k : String) (d : Dict J) (options : Dict (Value J))
      → lookup k (add_resources d options) ≡ or_else (lookup k options) (as_json (lookup k d))
  unfolding add_resources lookup
  lookup-add_resources k [] options = sym (or_else-none (lookup k options))
  lookup-add_resources k ((j, v) ∷ d) options =
      go (Bool-cases (has j options)) (λ o. lookup-add_resources k d o)
    where
      go :
          (has j options ≡ true) ⊎ (has j options ≡ false)
          → ((o : Dict (Value J))
              → lookup k (add_resources d o) ≡ or_else (lookup k o) (as_json (lookup k d)))
          → lookup k (add_resources ((j, v) ∷ d) options)
            ≡ or_else (lookup k options) (as_json (lookup k ((j, v) ∷ d)))
      go (inl h) rec = rw h (
          rec options
          ∙ kept_case (str_eq j k) (lookup k options) v (lookup k d)
              (λ e n. there k options (rw (← (eq_iff j k).0 e) h) n))
      go (inr h) rec = rw h (
          rec (insert j (json v) options)
          ∙ (ap (λ o. or_else o (as_json (lookup k d))) (lookup-insert j k (json v) options)
              ∙ new_case (str_eq j k) (lookup k options) v (lookup k d)
                  (λ e. not_there k options (rw (← (eq_iff j k).0 e) h))))

  -- What the Master sent is never overridden by the resources of the partition, and another option
  -- has the value of the last leaf of the file whose keys, with dashes for underscores and joined
  -- by dashes, make its name.
  pub lookup-with_resources :
      (k : String) (items : Items J) (options : Dict (Value J))
      → lookup k (with_resources (some items) options)
        ≡ or_else (lookup k options) (as_json (last k (leaves "" items)))
  unfolding flatten_dict lookup
  lookup-with_resources k items options =
      lookup-add_resources k (flatten_dict items) options
      ∙ ap (λ o. or_else (lookup k options) (as_json o))
          (lookup-flatten_from k "" items [] ∙ or_else-none (last k (leaves "" items)))
