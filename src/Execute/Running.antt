-- ===== src/Execute/Running.antt =====
-- Lemmas on the check of a pidfile, slapos/recipe/librecipe/execute.py.
use slapos_abilian_edge.Execute.{Words, same_words, found_from, already_running}
use slapos_abilian_edge.Base.{ℕ, zero, suc, ◌+◌, ◌-◌, ◌≤◌, ◌<◌, ◌≡◌, refl, sym, ap, ◌∙◌, ◌↔◌, ◌⊎◌}
use slapos_abilian_edge.Base.{inl, inr, Bool, true, false, ◌||◌, [], ◌∷◌, ◌++◌, arith, ◌==◌, ==_iff}
use slapos_abilian_edge.Base.{Bool-cases, length, take, drop, length-append}
use slapos_abilian_edge.Base.Text.{text_eq_iff}

-- The arguments stand in the command line, one after the other.
abbrev pub Contains : Words → Words → Type 0
Contains args running = (before : Words) × (after : Words) × (running ≡ before ++ (args ++ after))

same_words_iff : (vs ws : Words) → (same_words vs ws ≡ true) ↔ (vs ≡ ws)
unfolding same_words
same_words_iff [] [] = (λ h. refl, λ h. refl)
same_words_iff [] (w ∷ ws) = (λ h. cc, λ h. cc)
same_words_iff (v ∷ vs) [] = (λ h. cc, λ h. cc)
same_words_iff (v ∷ vs) (w ∷ ws) = ground (arith, text_eq_iff v w, same_words_iff vs ws)

take-drop : (n : ℕ) (ws : Words) → take n ws ++ drop n ws ≡ ws
take-drop zero ws = refl
take-drop (suc n) [] = refl
take-drop (suc n) (w ∷ ws) = rw (take-drop n ws) refl

found_from_sound :
    (count i : ℕ) (args running : Words)
    → found_from count i args running ≡ true
    → Contains args running
unfolding found_from
found_from_sound zero i args running h = cc
found_from_sound (suc count) i args running h =
    go (Bool-cases (same_words args (take (length args) (drop i running))))
      (found_from_sound count (suc i) args running)
  where
    go :
        (same_words args (take (length args) (drop i running)) ≡ true)
          ⊎ (same_words args (take (length args) (drop i running)) ≡ false)
        → (found_from count (suc i) args running ≡ true → Contains args running)
        → Contains args running
    go (inl e) rec =
        let q = (same_words_iff args (take (length args) (drop i running))).0 e in
        (
          take i running,
          drop (length args) (drop i running),
          sym (
              ap (λ x. take i running ++ (x ++ drop (length args) (drop i running))) q
              ∙ (ap (λ x. take i running ++ x) (take-drop (length args) (drop i running))
                  ∙ take-drop i running)),
        )
    go (inr e) rec = rec (sym (rw e refl) ∙ h)

take-length : (args after : Words) → take (length args) (args ++ after) ≡ args
take-length [] after = refl
take-length (a ∷ args) after = rw (take-length args after) refl

drop-length : (before after : Words) → drop (length before) (before ++ after) ≡ after
drop-length [] after = refl
drop-length (b ∷ before) after = drop-length before after

or_true : (a : Bool) → (a || true) ≡ true
or_true true = refl
or_true false = refl

-- A round among those that are made finds the arguments.
found_at :
    (count i j : ℕ) (args running : Words)
    → same_words args (take (length args) (drop j running)) ≡ true
    → i ≤ j
    → j < i + count
    → found_from count i args running ≡ true
unfolding found_from
found_at zero i j args running e le lt = absurd (omega (arith, le, lt))
found_at (suc count) i j args running e le lt =
    go (Bool-cases (i == j)) (found_at count (suc i) j args running e)
  where
    go :
        ((i == j) ≡ true) ⊎ ((i == j) ≡ false)
        → (suc i ≤ j → j < suc i + count → found_from count (suc i) args running ≡ true)
        → found_from (suc count) i args running ≡ true
    go (inl h) rec = rw ((==_iff i j).0 h, e) refl
    go (inr h) rec =
        rw (rec (ground (arith, le, h)) (omega (arith, lt)))
          (or_true (same_words args (take (length args) (drop i running))))

found_again :
    (args running before after : Words)
    → running ≡ before ++ (args ++ after)
    → found_from (suc (length running) - length args) 0 args running ≡ true
found_again args running before after e =
    let n : length running ≡ length before + (length args + length after) =
      ap length e
      ∙ (length-append before (args ++ after)
          ∙ ap (λ k. length before + k) (length-append args after)) in
    let t : take (length args) (drop (length before) running) ≡ args =
      ap (λ x. take (length args) (drop (length before) x)) e
      ∙ (ap (take (length args)) (drop-length before (args ++ after)) ∙ take-length args after) in
    found_at (suc (length running) - length args) 0 (length before) args running
      ((same_words_iff args (take (length args) (drop (length before) running))).1 (sym t))
      (omega arith) (omega (arith, n))

-- The process of the pidfile is taken for this one exactly when its command line has all the
-- arguments one after the other, with whatever before and after them.
pub already_running_iff :
    (args running : Words)
    → (already_running args running ≡ true → Contains args running)
      × (Contains args running → already_running args running ≡ true)
unfolding already_running
already_running_iff args running = (
  found_from_sound (suc (length running) - length args) 0 args running,
  λ (before, after, e). found_again args running before after e,
)
