-- ===== src/Shell/Reader.antt =====
-- How a POSIX shell reads the text of a script that has words, quotes, escapes, comments and the
-- parameter "$@": the description that slapos/recipe/librecipe/shlex.py is measured against.
use slapos_abilian_edge.Base.{ℕ, ◌≡◌, refl, Bool, ◌||◌, Option, none, some, List, [], ◌∷◌, ◌++◌}
use slapos_abilian_edge.Base.{◌==◌, if◌then◌else◌}
use slapos_abilian_edge.Base.Text.{Text}

-- A word is made of characters and of the list of the script's own arguments.
pub data Piece : Type 0 where
  lit : ℕ → Piece
  params : Piece

abbrev pub Word : Type 0
Word = List Piece

pub data Mode : Type 0 where
  between bare single double dollar : Mode
  escaped_between escaped_bare comment refused : Mode

-- The mode, the word, the command and the commands read so far.
pub data Reading : Type 0 where
  reading : Mode → Word → List Word → List (List Word) → Reading

-- Characters that mean something else than themselves outside quotes.
abbrev pub is_special : ℕ → Bool
is_special c =
    c == b'|'
    || (c == b'&'
        || (c == b';'
            || (c == b'<'
                || (c == b'>'
                    || (c == b'('
                        || (c == b')'
                            || (c == b'$'
                                || (c == b'`'
                                    || (c == b'*'
                                        || (c == b'?' || (c == b'[' || c == b'~')))))))))))

abbrev pub is_blank : ℕ → Bool
is_blank c = c == b' ' || c == 9

abbrev pub end_command : List Word → List (List Word) → List (List Word)
end_command [] cs = cs
end_command (w ∷ ws) cs = cs ++ ((w ∷ ws) ∷ [])

-- A character outside quotes that is neither blank, nor a newline, nor a backslash.
abbrev pub in_word : ℕ → Word → List Word → List (List Word) → Reading
in_word c w ws cs =
    if c == b'\''
    then reading single w ws cs
    else if c == b'"'
    then reading double w ws cs
    else if is_special c
    then reading refused w ws cs
    else reading bare (w ++ (lit c ∷ [])) ws cs

unfoldable pub step : Reading → ℕ → Reading
step (reading between w ws cs) c =
    if is_blank c
    then reading between w ws cs
    else if c == 10
    then reading between w [] (end_command ws cs)
    else if c == b'\\'
    then reading escaped_between w ws cs
    else if c == b'#'
    then reading comment w ws cs
    else in_word c w ws cs
step (reading bare w ws cs) c =
    if is_blank c
    then reading between [] (ws ++ (w ∷ [])) cs
    else if c == 10
    then reading between [] [] (end_command (ws ++ (w ∷ [])) cs)
    else if c == b'\\'
    then reading escaped_bare w ws cs
    else in_word c w ws cs
step (reading single w ws cs) c =
    if c == b'\'' then reading bare w ws cs else reading single (w ++ (lit c ∷ [])) ws cs
step (reading double w ws cs) c =
    if c == b'"'
    then reading bare w ws cs
    else if c == b'$'
    then reading dollar w ws cs
    else if c == b'`' || c == b'\\'
    then reading refused w ws cs
    else reading double (w ++ (lit c ∷ [])) ws cs
step (reading dollar w ws cs) c =
    if c == b'@' then reading double (w ++ (params ∷ [])) ws cs else reading refused w ws cs
step (reading escaped_between w ws cs) c =
    if c == 10 then reading between w ws cs else reading bare (w ++ (lit c ∷ [])) ws cs
step (reading escaped_bare w ws cs) c =
    if c == 10 then reading bare w ws cs else reading bare (w ++ (lit c ∷ [])) ws cs
step (reading comment w ws cs) c =
    if c == 10 then reading between w [] (end_command ws cs) else reading comment w ws cs
step (reading refused w ws cs) c = reading refused w ws cs

unfoldable pub read : Reading → Text → Reading
read r [] = r
read r (c ∷ s) = read (step r c) s

abbrev pub finished : Reading → Option (List (List Word))
finished (reading between w ws cs) = some (end_command ws cs)
finished (reading bare w ws cs) = some (end_command (ws ++ (w ∷ [])) cs)
finished (reading comment w ws cs) = some (end_command ws cs)
finished (reading _ w ws cs) = none

-- The commands of a script, or `none` for a text outside the part of the shell that is described.
unfoldable pub commands : Text → Option (List (List Word))
unfolding read step
commands s = finished (read (reading between [] [] []) s)

pub read-append : (r : Reading) (s t : Text) → read r (s ++ t) ≡ read (read r s) t
unfolding read
read-append r [] t = refl
read-append r (c ∷ s) t = read-append (step r c) s t
