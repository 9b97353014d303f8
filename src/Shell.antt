-- ===== src/Shell.antt =====
-- slapos/recipe/librecipe/shlex.py and the text of the wrappers in
-- slapos/recipe/librecipe/generic.py: quoting of arguments and the layout of the lines.
mod Laws
mod Reader
mod Script
mod Commands
mod Tests
use slapos_abilian_edge.Base.{ℕ, Bool, true, ◌&&◌, ◌||◌, Option, none, some, List, [], ◌∷◌, ◌++◌}
use slapos_abilian_edge.Base.{map, ltb, leb, ◌==◌, if◌then◌else◌, length}
use slapos_abilian_edge.Base.Text.{text_le, Text, codes, join}

-- The class of characters that `_find_unsafe` does not find: `\w` of ASCII and @%+=:,./-
abbrev pub is_word_char : ℕ → Bool
is_word_char c =
    leb b'a' c && leb c b'z'
    || (leb b'A' c && leb c b'Z' || (leb b'0' c && leb c b'9' || c == b'_'))

abbrev pub is_safe : ℕ → Bool
is_safe c =
    is_word_char c
    || (c == b'@'
        || (c == b'%'
            || (c == b'+'
                || (c == b'='
                    || (c == b':' || (c == b',' || (c == b'.' || (c == b'/' || c == b'-'))))))))

unfoldable pub all_safe : Text → Bool
all_safe [] = true
all_safe (c ∷ s) = is_safe c && all_safe s

-- `s.replace("'", "'\"'\"'")`
unfoldable pub escape : Text → Text
escape [] = []
escape (c ∷ s) =
    let rest = escape s in
    if c == b'\'' then b'\'' ∷ b'"' ∷ b'\'' ∷ b'"' ∷ b'\'' ∷ rest else c ∷ rest

unfoldable pub quote : Text → Text
quote [] = b'\'' ∷ b'\'' ∷ []
quote (c ∷ s) = if all_safe (c ∷ s) then c ∷ s else b'\'' ∷ (escape (c ∷ s) ++ (b'\'' ∷ []))

abbrev pub Environ : Type 0
Environ = List (Text × Text)

unfoldable pub insert_item : Text → Text → Environ → Environ
insert_item k v [] = (k, v) ∷ []
insert_item k v ((j, w) ∷ env) =
    if text_le k j then (k, v) ∷ (j, w) ∷ env else (j, w) ∷ insert_item k v env

-- `sorted(six.iteritems(env))`. The keys of a dictionary differ, so that they alone decide.
unfoldable pub sorted_items : Environ → Environ
unfolding insert_item
sorted_items [] = []
sorted_items ((k, v) ∷ env) = insert_item k v (sorted_items env)

abbrev pub export_line : Text → Text → Text
export_line k v = codes "export " ++ (k ++ (b'=' ∷ quote v))

unfoldable pub export_lines : Environ → List Text
export_lines [] = []
export_lines ((k, v) ∷ env) = export_line k v ∷ export_lines env

abbrev pub all_arguments : Text
all_arguments = codes "\"$@\""

-- The loop over the arguments: `last` is `lines[-1]`, and the result is this line and those that
-- come after it.
unfoldable pub add_arguments : Text → List Text → List Text
add_arguments last [] = last ∷ []
add_arguments last (arg ∷ args) =
    let short = ltb (length last) 40 in
    let rest = add_arguments (if short then last ++ (b' ' ∷ arg) else 9 ∷ arg) args in
    if short then rest else (last ++ (b' ' ∷ b'\\' ∷ [])) ∷ rest

abbrev pub trap_lines : Option Text → List Text
trap_lines none = []
trap_lines (some sig_ign) = (codes "trap '' " ++ sig_ign) ∷ []

abbrev pub quoted : List Text → List Text
quoted args = map quote args ++ (all_arguments ∷ [])

abbrev pub wrapper_lines : List Text → Environ → Option Text → List Text
wrapper_lines args env sig_ign =
    codes "#!/bin/sh -e"
    ∷ (trap_lines sig_ign
        ++ (export_lines (sorted_items env) ++ add_arguments (codes "exec") (quoted args)))

-- The text of a wrapper without options of `generic_exec`.
unfoldable pub wrapper_text : List Text → Environ → Option Text → Text
unfolding quote sorted_items export_lines add_arguments join
wrapper_text args env sig_ign = join (10 ∷ []) (wrapper_lines args env sig_ign ++ ([] ∷ []))
