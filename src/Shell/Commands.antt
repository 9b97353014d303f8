-- ===== src/Shell/Commands.antt =====
-- Lemmas on the text of the wrappers of slapos/recipe/librecipe/generic.py.
use slapos_abilian_edge.Shell.{
  is_word_char, all_safe, quote, Environ, sorted_items, insert_item, export_line, export_lines,
  add_arguments, trap_lines, quoted, wrapper_text,
}
use slapos_abilian_edge.Shell.Reader.{
  lit, Word, between, bare, reading, step, read, read-append, commands, finished,
}
use slapos_abilian_edge.Shell.Laws.{
  literal, quote-in_word, safe_start, step_safe, read_cons, and_split,
}
use slapos_abilian_edge.Shell.Script.{
  script, script-cons, ends_line, end_command-snoc, add_arguments-words, quoted-AllRead,
  argument_words,
}
use mathlib.Core.List.{append_assoc, append-nil}
use slapos_abilian_edge.Base.{◌≡◌, refl, sym, ap, ◌∙◌, ◌≢◌, ◌⊎◌, inl, inr, Bool, true, false, ◌&&◌}
use slapos_abilian_edge.Base.{Option, none, some, List, [], ◌∷◌, ◌++◌, Bool-cases, All}
use slapos_abilian_edge.Base.Text.{text_le, Text, codes}
use slapos_abilian_edge.Base.Str.{lines}

-- The commands that the lines of a wrapper stand for.
abbrev pub export_words : Text → Text → List Word
export_words k v = literal (codes "export") ∷ (literal k ++ (lit b'=' ∷ literal v)) ∷ []

unfoldable pub export_commands : Environ → List (List Word)
export_commands [] = []
export_commands ((k, v) ∷ env) = export_words k v ∷ export_commands env

unfoldable pub all_word_chars : Text → Bool
all_word_chars [] = true
all_word_chars (c ∷ s) = is_word_char c && all_word_chars s

-- A name of an environment variable, as the shell has them.
abbrev pub IsName : Text → Type 0
IsName k = (k ≢ []) × (all_word_chars k ≡ true)

abbrev pub Names : Environ → Type 0
Names = All (λ e. IsName e.0)

word_char_safe : (k : Text) → all_word_chars k ≡ true → all_safe k ≡ true
unfolding all_word_chars all_safe
word_char_safe [] h = refl
word_char_safe (c ∷ k) h =
    let split = and_split (is_word_char c) (all_word_chars k) h in
    rw (split.0, word_char_safe k split.1) refl

after_export :
    (ws : List Word) (cs : List (List Word)) (s : Text)
    → read (reading between [] [] cs) (codes "export " ++ s)
      ≡ read (reading between [] (literal (codes "export") ∷ []) cs) s
unfolding read step
after_export ws cs s = refl

export_line-Reads :
    (k v : Text) (cs : List (List Word))
    → IsName k
    → read (reading between [] [] cs) (export_line k v)
      ≡ reading bare (literal k ++ (lit b'=' ∷ literal v)) (literal (codes "export") ∷ []) cs
export_line-Reads [] v cs h = elim (h.0 refl) [ ]
export_line-Reads (c ∷ k) v cs h =
    let ws = literal (codes "export") ∷ [] in
    after_export ws cs ((c ∷ k) ++ (b'=' ∷ quote v))
    ∙ (read-append (reading between [] ws cs) (c ∷ k) (b'=' ∷ quote v)
        ∙ (ap (λ r. read r (b'=' ∷ quote v)) (safe_start c k ws cs (word_char_safe (c ∷ k) h.1))
            ∙ (read_cons (reading bare (literal (c ∷ k)) ws cs)
                  (reading bare (literal (c ∷ k) ++ (lit b'=' ∷ [])) ws cs) b'=' (quote v) _
                  (step_safe b'=' (literal (c ∷ k)) ws cs refl)
                  (quote-in_word v (literal (c ∷ k) ++ (lit b'=' ∷ [])) ws cs)
                ∙ ap (λ w. reading bare w ws cs)
                    (append_assoc (literal (c ∷ k)) (lit b'=' ∷ []) (literal v)))))

-- A line that is one command, before the other lines.
line_before :
    (l : Text) (lines : List Text) (w : Word) (ws : List Word) (cs : List (List Word))
    → read (reading between [] [] cs) l ≡ reading bare w ws cs
    → read (reading between [] [] cs) (script (l ∷ lines))
      ≡ read (reading between [] [] (cs ++ ((ws ++ (w ∷ [])) ∷ []))) (script lines)
line_before l lines w ws cs h =
    ap (read (reading between [] [] cs)) (script-cons l lines)
    ∙ (read-append (reading between [] [] cs) l (10 ∷ script lines)
        ∙ (ap (λ r. read r (10 ∷ script lines)) h
            ∙ (ends_line w ws cs (script lines)
                ∙ ap (λ x. read (reading between [] [] x) (script lines))
                    (end_command-snoc w ws cs))))

export_lines-commands :
    (env : Environ) (lines : List Text) (cs : List (List Word))
    → Names env
    → read (reading between [] [] cs) (script (export_lines env ++ lines))
      ≡ read (reading between [] [] (cs ++ export_commands env)) (script lines)
unfolding export_lines export_commands
export_lines-commands [] lines cs h =
    ap (λ x. read (reading between [] [] x) (script lines)) (sym (append-nil cs))
export_lines-commands ((k, v) ∷ env) lines cs h =
    line_before (export_line k v) (export_lines env ++ lines) (literal k ++ (lit b'=' ∷ literal v))
      (literal (codes "export") ∷ []) cs (export_line-Reads k v cs h.0)
    ∙ (export_lines-commands env lines (cs ++ (export_words k v ∷ [])) h.1
        ∙ ap (λ x. read (reading between [] [] x) (script lines))
            (append_assoc cs (export_words k v ∷ []) (export_commands env)))

insert_item-Names :
    (k v : Text) (env : Environ) → IsName k → Names env → Names (insert_item k v env)
unfolding insert_item
insert_item-Names k v [] h hs = (h, tt)
insert_item-Names k v ((j, w) ∷ env) h hs =
    go (Bool-cases (text_le k j)) (insert_item-Names k v env h hs.1)
  where
    go :
        (text_le k j ≡ true) ⊎ (text_le k j ≡ false)
        → Names (insert_item k v env)
        → Names (insert_item k v ((j, w) ∷ env))
    go (inl e) ih = rw e (h, hs)
    go (inr e) ih = rw e (hs.0, ih)

sorted_items-Names : (env : Environ) → Names env → Names (sorted_items env)
unfolding sorted_items
sorted_items-Names [] hs = tt
sorted_items-Names ((k, v) ∷ env) hs =
    insert_item-Names k v (sorted_items env) hs.0 (sorted_items-Names env hs.1)

abbrev pub trap_commands : Option Text → List (List Word)
trap_commands none = []
trap_commands (some sig_ign) = (literal (codes "trap") ∷ [] ∷ literal sig_ign ∷ []) ∷ []

-- The name of a signal has characters that need no quotes.
abbrev pub SignalName : Option Text → Type 0
SignalName none = Unit {0}
SignalName (some sig_ign) = (sig_ign ≢ []) × (all_safe sig_ign ≡ true)

after_trap :
    (cs : List (List Word)) (s : Text)
    → read (reading between [] [] cs) (codes "trap '' " ++ s)
      ≡ read (reading between [] (literal (codes "trap") ∷ [] ∷ []) cs) s
unfolding read step
after_trap cs s = refl

trap_line-Reads :
    (s : Text) (cs : List (List Word))
    → SignalName (some s)
    → read (reading between [] [] cs) (codes "trap '' " ++ s)
      ≡ reading bare (literal s) (literal (codes "trap") ∷ [] ∷ []) cs
trap_line-Reads [] cs h = elim (h.0 refl) [ ]
trap_line-Reads (c ∷ s) cs h =
    after_trap cs (c ∷ s) ∙ safe_start c s (literal (codes "trap") ∷ [] ∷ []) cs h.1

trap_lines-commands :
    (sig_ign : Option Text) (lines : List Text)
    → SignalName sig_ign
    → read (reading between [] [] []) (script (trap_lines sig_ign ++ lines))
      ≡ read (reading between [] [] (trap_commands sig_ign)) (script lines)
trap_lines-commands none lines h = refl
trap_lines-commands (some s) lines h =
    line_before (codes "trap '' " ++ s) lines (literal s) (literal (codes "trap") ∷ [] ∷ []) []
      (trap_line-Reads s [] h)

header_line :
    (s : Text)
    → read (reading between [] [] []) (codes "#!/bin/sh -e" ++ (10 ∷ s))
      ≡ read (reading between [] [] []) s
unfolding read step
header_line s = refl

exec-Reads :
    (cs : List (List Word))
    → read (reading between [] [] cs) (codes "exec") ≡ reading bare (literal (codes "exec")) [] cs
unfolding read step
exec-Reads cs = refl

-- A shell reads in the text of a wrapper: the trap, if any, an export of each variable with its
-- very value, in the order of their names, and exec with each argument as it was given, followed
-- by the arguments of the wrapper; if the variables have names of the shell and the signal needs
-- no quotes.
pub wrapper_text-commands :
    (args : List Text) (env : Environ) (sig_ign : Option Text)
    → Names env
    → SignalName sig_ign
    → commands (wrapper_text args env sig_ign)
      ≡ some (
          trap_commands sig_ign
          ++ export_commands (sorted_items env)
          ++ ((literal (codes "exec") ∷ argument_words args) ∷ []))
unfolding commands wrapper_text script
wrapper_text-commands args env sig_ign names signal =
    let traps = trap_commands sig_ign in
    let exports = export_lines (sorted_items env) in
    let lines = add_arguments (codes "exec") (quoted args) in
    ap finished (
      ap (read (reading between [] [] []))
        (script-cons (codes "#!/bin/sh -e") (trap_lines sig_ign ++ (exports ++ lines)))
      ∙ (header_line (script (trap_lines sig_ign ++ (exports ++ lines)))
          ∙ (trap_lines-commands sig_ign (exports ++ lines) signal
              ∙ (export_lines-commands (sorted_items env) lines traps (sorted_items-Names env names)
                  ∙ add_arguments-words (quoted args) (argument_words args) (quoted-AllRead args)
                      (codes "exec")
                      (reading between [] [] (traps ++ export_commands (sorted_items env)))
                      (literal (codes "exec")) [] (traps ++ export_commands (sorted_items env))
                      (exec-Reads (traps ++ export_commands (sorted_items env)))))))
