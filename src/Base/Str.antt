-- ===== src/Base/Str.antt =====
-- Methods of `str` on native texts, for names and options that are compared whole.
use slapos_abilian_edge.Base.{ℕ, String, ◌<>◌, Bool, ◌||◌, Option, none, some, List, [], ◌∷◌}
use slapos_abilian_edge.Base.{str_eq, ◌==◌, if◌then◌else◌}
use slapos_abilian_edge.Base.Text.{codes, text_eq, is_white, lower}
use Prim.Native.Char.{Char, code}

abbrev chars_push : Char → List String → List String
chars_push c [] = (String.◌∷◌ c String.[]) ∷ []
chars_push c (w ∷ ws) = String.◌∷◌ c w ∷ ws

-- `s.split(sep)` for a separator of one character, given by its code.
unfoldable pub str_split : ℕ → String → List String
str_split sep String.[] = "" ∷ []
str_split sep (String.◌∷◌ c s) =
    let rest = str_split sep s in if code c == sep then "" ∷ rest else chars_push c rest

unfoldable pub nonempty : List String → List String
nonempty [] = []
nonempty (w ∷ ws) = let rest = nonempty ws in if str_eq w "" then rest else w ∷ rest

white_split : String → List String
unfolding is_white
white_split String.[] = "" ∷ []
white_split (String.◌∷◌ c s) =
    let rest = white_split s in if is_white (code c) then "" ∷ rest else chars_push c rest

-- `s.split()`
unfoldable pub words : String → List String
unfolding white_split nonempty
words s = nonempty (white_split s)

-- `s.splitlines()` for lines that end in a newline, without the empty ones.
unfoldable pub lines : String → List String
unfolding str_split nonempty
lines s = nonempty (str_split 10 s)

-- `k[len(prefix):]` if `k.startswith(prefix)`
unfoldable pub strip_prefix : String → String → Option String
strip_prefix String.[] s = some s
strip_prefix (String.◌∷◌ c p) String.[] = none
strip_prefix (String.◌∷◌ c p) (String.◌∷◌ d s) =
    let rest = strip_prefix p s in if code c == code d then rest else none

-- `GenericBaseRecipe.TRUE_VALUES`, on the lower-case form of a value.
unfoldable pub is_true_value : String → Bool
unfolding lower text_eq
is_true_value v =
    let s = lower (codes v) in
    text_eq s (codes "y")
    || (text_eq s (codes "yes") || (text_eq s (codes "1") || text_eq s (codes "true")))

unfoldable pub last_part : List String → String
last_part [] = ""
last_part (s ∷ []) = s
last_part (s ∷ t ∷ ss) = last_part (t ∷ ss)

-- `os.path.join(dir, name)`
unfoldable pub path_join : String → String → String
unfolding last_part str_split strip_prefix
path_join dir name = elim (strip_prefix "/" name) [
  | some _ ↦ name
  | none ↦ if str_eq (last_part (str_split b'/' dir)) "" then dir <> name else dir <> ("/" <> name)
]
