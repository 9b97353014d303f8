-- ===== src/Shell/Script.antt =====
-- How a shell reads lines: breaks of a line and the words of one command.
use slapos_abilian_edge.Shell.{all_arguments, add_arguments, quoted}
use slapos_abilian_edge.Shell.Reader.{
  params, Word, between, bare, Reading, reading, end_command, step, read, read-append,
}
use slapos_abilian_edge.Shell.Laws.{literal, Reads, quote-Reads}
use mathlib.Core.List.{append_assoc}
use slapos_abilian_edge.Base.{◌≡◌, refl, ap, ◌∙◌, ◌⊎◌, inl, inr, true, false, List, [], ◌∷◌, ◌++◌}
use slapos_abilian_edge.Base.{map, ltb, Bool-cases, length}
use slapos_abilian_edge.Base.Text.{Text, join}
use slapos_abilian_edge.Base.Str.{lines}

-- Texts that are read as words, one by one.
pub data AllRead : List Text → List Word → Type 0 where
  none_left : AllRead [] []
  one_more :
      (s : Text) (v : Word) (ss : List Text) (vs : List Word)
      → Reads s v
      → AllRead ss vs
      → AllRead (s ∷ ss) (v ∷ vs)

abbrev pub argument_words : List Text → List Word
argument_words args = map literal args ++ ((params ∷ []) ∷ [])

all_arguments-Reads : Reads all_arguments (params ∷ [])
unfolding read step
all_arguments-Reads ws cs = refl

pub quoted-AllRead : (args : List Text) → AllRead (quoted args) (argument_words args)
quoted-AllRead [] = one_more _ _ _ _ all_arguments-Reads none_left
quoted-AllRead (a ∷ args) = one_more _ _ _ _ (quote-Reads a) (quoted-AllRead args)

-- The lines of a script as one text.
unfoldable pub script : List Text → Text
unfolding join
script lines = join (10 ∷ []) (lines ++ ([] ∷ []))

pub script-cons : (l : Text) (lines : List Text) → script (l ∷ lines) ≡ l ++ (10 ∷ script lines)
unfolding script join
script-cons l [] = refl
script-cons l (m ∷ lines) = refl

pub ends_line :
    (w : Word) (ws : List Word) (cs : List (List Word)) (s : Text)
    → read (reading bare w ws cs) (10 ∷ s)
      ≡ read (reading between [] [] (end_command (ws ++ (w ∷ [])) cs)) s
unfolding read step
ends_line w ws cs s = refl

continues :
    (w : Word) (ws : List Word) (cs : List (List Word)) (s : Text)
    → read (reading bare w ws cs) (b' ' ∷ b'\\' ∷ 10 ∷ s)
      ≡ read (reading between [] (ws ++ (w ∷ [])) cs) s
unfolding read step
continues w ws cs s = refl

blank :
    (w : Word) (ws : List Word) (cs : List (List Word)) (s : Text)
    → (read (reading bare w ws cs) (b' ' ∷ s) ≡ read (reading between [] (ws ++ (w ∷ [])) cs) s)
      × (read (reading between [] ws cs) (9 ∷ s) ≡ read (reading between [] ws cs) s)
unfolding read step
blank w ws cs s = (refl, refl)

pub end_command-snoc :
    (w : Word) (ws : List Word) (cs : List (List Word))
    → end_command (ws ++ (w ∷ [])) cs ≡ cs ++ ((ws ++ (w ∷ [])) ∷ [])
end_command-snoc w [] cs = refl
end_command-snoc w (v ∷ ws) cs = refl

abbrev joined : List (List Word) → List Word → Word → List Word → Reading
joined cs ws w vs = reading between [] [] (cs ++ ((ws ++ (w ∷ vs)) ∷ []))

joined_later :
    (cs : List (List Word)) (ws : List Word) (w v : Word) (vs : List Word)
    → joined cs (ws ++ (w ∷ [])) v vs ≡ joined cs ws w (v ∷ vs)
joined_later cs ws w v vs =
    ap (λ x. reading between [] [] (cs ++ (x ∷ []))) (append_assoc ws (w ∷ []) (v ∷ vs))

last_line :
    (last : Text) (r : Reading) (w : Word) (ws : List Word) (cs : List (List Word))
    → read r last ≡ reading bare w ws cs
    → read r (script (last ∷ [])) ≡ joined cs ws w []
unfolding script join read
last_line last r w ws cs h =
    read-append r last (10 ∷ [])
    ∙ (ap (λ x. read x (10 ∷ [])) h
        ∙ (ends_line w ws cs [] ∙ ap (λ x. reading between [] [] x) (end_command-snoc w ws cs)))

broken_line :
    (last : Text) (lines : List Text) (r : Reading) (w : Word) (ws : List Word)
    (cs : List (List Word))
    → read r last ≡ reading bare w ws cs
    → read r (script ((last ++ (b' ' ∷ b'\\' ∷ [])) ∷ lines))
      ≡ read (reading between [] (ws ++ (w ∷ [])) cs) (script lines)
broken_line last lines r w ws cs h =
    ap (read r) (
      script-cons (last ++ (b' ' ∷ b'\\' ∷ [])) lines
      ∙ append_assoc last (b' ' ∷ b'\\' ∷ []) (10 ∷ script lines))
    ∙ (read-append r last (b' ' ∷ b'\\' ∷ 10 ∷ script lines)
        ∙ (ap (λ x. read x (b' ' ∷ b'\\' ∷ 10 ∷ script lines)) h
            ∙ continues w ws cs (script lines)))

-- However the arguments are laid out, they are the words of one command.
pub add_arguments-words :
    (ss : List Text) (vs : List Word)
    → AllRead ss vs
    → (last : Text) (r : Reading) (w : Word) (ws : List Word) (cs : List (List Word))
    → read r last ≡ reading bare w ws cs
    → read r (script (add_arguments last ss)) ≡ joined cs ws w vs
unfolding add_arguments
add_arguments-words [] [] none_left last r w ws cs h = last_line last r w ws cs h
add_arguments-words [] (v ∷ vs) x last r w ws cs h = elim x [ ]
add_arguments-words (s ∷ ss) [] x last r w ws cs h = elim x [ ]
add_arguments-words (s ∷ ss) (v ∷ vs) (one_more _ _ _ _ rd more) last r w ws cs h =
    go (Bool-cases (ltb (length last) 40)) (add_arguments-words ss vs more)
  where
    go :
        (ltb (length last) 40 ≡ true) ⊎ (ltb (length last) 40 ≡ false)
        → ((l : Text) (q : Reading) (u : Word) (us : List Word) (ds : List (List Word))
            → read q l ≡ reading bare u us ds
            → read q (script (add_arguments l ss)) ≡ joined ds us u vs)
        → read r (script (add_arguments last (s ∷ ss))) ≡ joined cs ws w (v ∷ vs)
    go (inl e) ih = rw e (
        ih (last ++ (b' ' ∷ s)) r v (ws ++ (w ∷ [])) cs (
          read-append r last (b' ' ∷ s)
          ∙ (ap (λ x. read x (b' ' ∷ s)) h ∙ ((blank w ws cs s).0 ∙ rd (ws ++ (w ∷ [])) cs)))
        ∙ joined_later cs ws w v vs)
    go (inr e) ih = rw e (
        broken_line last (add_arguments (9 ∷ s) ss) r w ws cs h
        ∙ (ih (9 ∷ s) (reading between [] (ws ++ (w ∷ [])) cs) v (ws ++ (w ∷ [])) cs
              ((blank [] (ws ++ (w ∷ [])) cs s).1 ∙ rd (ws ++ (w ∷ [])) cs)
            ∙ joined_later cs ws w v vs))
