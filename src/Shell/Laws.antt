-- ===== src/Shell/Laws.antt =====
-- Lemmas on the quoting of slapos/recipe/librecipe/shlex.py.
use slapos_abilian_edge.Shell.{is_safe, all_safe, escape, quote}
use slapos_abilian_edge.Shell.Reader.{
  lit, Word, between, bare, single, Reading, reading, step, read,
}
use mathlib.Core.List.{append_assoc, append-nil}
use slapos_abilian_edge.Base.{ℕ, ◌≡◌, refl, sym, ap, ◌∙◌, ◌⊎◌, inl, inr, Bool, true, false, ◌&&◌}
use slapos_abilian_edge.Base.{List, [], ◌∷◌, ◌++◌, map, arith, ◌==◌, ==_iff, Bool-cases}
use slapos_abilian_edge.Base.Text.{Text}

abbrev pub literal : Text → Word
literal s = map lit s

pub and_split : (a b : Bool) → (a && b) ≡ true → (a ≡ true) × (b ≡ true)
and_split true b h = (refl, h)
and_split false b h = cc

pub step_safe :
    (c : ℕ) (w : Word) (ws : List Word) (cs : List (List Word))
    → is_safe c ≡ true
    → step (reading bare w ws cs) c ≡ reading bare (w ++ (lit c ∷ [])) ws cs
unfolding step
step_safe c w ws cs h = ground arith

pub read_safe :
    (s : Text) (w : Word) (ws : List Word) (cs : List (List Word))
    → all_safe s ≡ true
    → read (reading bare w ws cs) s ≡ reading bare (w ++ literal s) ws cs
unfolding read all_safe
read_safe [] w ws cs h = sym (ap (λ v. reading bare v ws cs) (append-nil w))
read_safe (c ∷ s) w ws cs h =
    let split = and_split (is_safe c) (all_safe s) h in
    rw (step_safe c w ws cs split.0) (
      read_safe s (w ++ (lit c ∷ [])) ws cs split.1
      ∙ ap (λ v. reading bare v ws cs) (append_assoc w (lit c ∷ []) (literal s)))

not_quote :
    (c : ℕ) (w : Word) (ws : List Word) (cs : List (List Word))
    → (c == b'\'') ≡ false
    → step (reading single w ws cs) c ≡ reading single (w ++ (lit c ∷ [])) ws cs
unfolding step
not_quote c w ws cs h = rw h refl

quote_ends :
    (w : Word) (ws : List Word) (cs : List (List Word))
    → step (reading single w ws cs) b'\'' ≡ reading bare (w ++ []) ws cs
unfolding step
quote_ends w ws cs = sym (ap (λ v. reading bare v ws cs) (append-nil w))

quote_quoted :
    (w : Word) (ws : List Word) (cs : List (List Word)) (s : Text)
    → read (reading single w ws cs) (b'\'' ∷ b'"' ∷ b'\'' ∷ b'"' ∷ b'\'' ∷ s)
      ≡ read (reading single (w ++ (lit b'\'' ∷ [])) ws cs) s
unfolding read step
quote_quoted w ws cs s = refl

no_characters :
    (w : Word) (ws : List Word) (cs : List (List Word))
    → (read (reading between [] ws cs) (b'\'' ∷ b'\'' ∷ []) ≡ reading bare [] ws cs)
      × (read (reading bare w ws cs) (b'\'' ∷ b'\'' ∷ []) ≡ reading bare (w ++ []) ws cs)
unfolding read step
no_characters w ws cs = (refl, sym (ap (λ v. reading bare v ws cs) (append-nil w)))

opens :
    (w : Word) (ws : List Word) (cs : List (List Word))
    → (step (reading between [] ws cs) b'\'' ≡ reading single [] ws cs)
      × (step (reading bare w ws cs) b'\'' ≡ reading single w ws cs)
unfolding step
opens w ws cs = (refl, refl)

pub read_cons :
    (r q : Reading) (c : ℕ) (s : Text) (z : Reading)
    → step r c ≡ q
    → read q s ≡ z
    → read r (c ∷ s) ≡ z
unfolding read
read_cons r q c s z e f = ap (λ x. read x s) e ∙ f

read-escape :
    (s : Text) (w : Word) (ws : List Word) (cs : List (List Word))
    → read (reading single w ws cs) (escape s ++ (b'\'' ∷ [])) ≡ reading bare (w ++ literal s) ws cs
unfolding read escape
read-escape [] w ws cs = quote_ends w ws cs
read-escape (c ∷ s) w ws cs = go (Bool-cases (c == b'\'')) (λ v. read-escape s v ws cs)
  where
    go :
        ((c == b'\'') ≡ true) ⊎ ((c == b'\'') ≡ false)
        → ((v : Word)
            → read (reading single v ws cs) (escape s ++ (b'\'' ∷ []))
              ≡ reading bare (v ++ literal s) ws cs)
        → read (reading single w ws cs) (escape (c ∷ s) ++ (b'\'' ∷ []))
          ≡ reading bare (w ++ literal (c ∷ s)) ws cs
    go (inl h) tail = rw h (
        quote_quoted w ws cs (escape s ++ (b'\'' ∷ []))
        ∙ (tail (w ++ (lit b'\'' ∷ []))
            ∙ ap (λ v. reading bare v ws cs)
                (append_assoc w (lit b'\'' ∷ []) (literal s)
                  ∙ ap (λ d. w ++ (lit d ∷ literal s)) (sym ((==_iff c b'\'').0 h)))))
    go (inr h) tail = rw h (
        read_cons (reading single w ws cs) (reading single (w ++ (lit c ∷ [])) ws cs) c
          (escape s ++ (b'\'' ∷ [])) (reading bare (w ++ (lit c ∷ literal s)) ws cs)
          (not_quote c w ws cs h)
          (tail (w ++ (lit c ∷ []))
            ∙ ap (λ v. reading bare v ws cs) (append_assoc w (lit c ∷ []) (literal s))))

-- A word that a shell reads from a text that stands between blanks.
abbrev pub Reads : Text → Word → Type 0
Reads s v =
    (ws : List Word) (cs : List (List Word))
    → read (reading between [] ws cs) s ≡ reading bare v ws cs

start_safe :
    (c : ℕ) (ws : List Word) (cs : List (List Word))
    → is_safe c ≡ true
    → step (reading between [] ws cs) c ≡ reading bare (lit c ∷ []) ws cs
unfolding step
start_safe c ws cs h = ground arith

pub safe_start :
    (c : ℕ) (s : Text) (ws : List Word) (cs : List (List Word))
    → all_safe (c ∷ s) ≡ true
    → read (reading between [] ws cs) (c ∷ s) ≡ reading bare (literal (c ∷ s)) ws cs
unfolding all_safe
safe_start c s ws cs h =
    let split = and_split (is_safe c) (all_safe s) h in
    read_cons _ _ _ _ _ (start_safe c ws cs split.0) (read_safe s (lit c ∷ []) ws cs split.1)

pub quote-Reads : (s : Text) → Reads (quote s) (literal s)
unfolding quote
quote-Reads [] ws cs = (no_characters [] ws cs).0
quote-Reads (c ∷ s) ws cs = go (Bool-cases (all_safe (c ∷ s)))
  where
    go :
        (all_safe (c ∷ s) ≡ true) ⊎ (all_safe (c ∷ s) ≡ false)
        → read (reading between [] ws cs) (quote (c ∷ s)) ≡ reading bare (literal (c ∷ s)) ws cs
    go (inl h) = rw h (safe_start c s ws cs h)
    go (inr h) = rw h (
        read_cons (reading between [] ws cs) (reading single [] ws cs) b'\''
          (escape (c ∷ s) ++ (b'\'' ∷ [])) (reading bare (literal (c ∷ s)) ws cs) (opens [] ws cs).0
          (read-escape (c ∷ s) [] ws cs))

-- The same after the beginning of a word, as in `name=value`.
pub quote-in_word :
    (s : Text) (w : Word) (ws : List Word) (cs : List (List Word))
    → read (reading bare w ws cs) (quote s) ≡ reading bare (w ++ literal s) ws cs
unfolding quote
quote-in_word [] w ws cs = (no_characters w ws cs).1
quote-in_word (c ∷ s) w ws cs = go (Bool-cases (all_safe (c ∷ s)))
  where
    go :
        (all_safe (c ∷ s) ≡ true) ⊎ (all_safe (c ∷ s) ≡ false)
        → read (reading bare w ws cs) (quote (c ∷ s)) ≡ reading bare (w ++ literal (c ∷ s)) ws cs
    go (inl h) = rw h (read_safe (c ∷ s) w ws cs h)
    go (inr h) = rw h (
        read_cons (reading bare w ws cs) (reading single w ws cs) b'\''
          (escape (c ∷ s) ++ (b'\'' ∷ [])) (reading bare (w ++ literal (c ∷ s)) ws cs)
          (opens w ws cs).1 (read-escape (c ∷ s) w ws cs))
