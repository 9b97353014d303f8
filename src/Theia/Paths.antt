-- ===== src/Theia/Paths.antt =====
-- `os.path` on absolute paths, as the scripts use it.
use slapos_abilian_edge.Base.{◌≡◌, refl, ◌↔◌, Bool, true, false, ◌&&◌, List, [], ◌∷◌, ◌++◌, map}
use slapos_abilian_edge.Base.{arith, ◌==◌, if◌then◌else◌}
use slapos_abilian_edge.Base.Text.{text_le, Text, codes, text_eq, text_eq_iff, split_on, join}

abbrev pub FilePath : Type 0
FilePath = List Text

unfoldable pub path_eq : FilePath → FilePath → Bool
path_eq [] [] = true
path_eq [] (d ∷ q) = false
path_eq (c ∷ p) [] = false
path_eq (c ∷ p) (d ∷ q) = text_eq c d && path_eq p q

pub path_eq_iff : (p q : FilePath) → (path_eq p q ≡ true) ↔ (p ≡ q)
unfolding path_eq
path_eq_iff [] [] = (λ _. refl, λ _. refl)
path_eq_iff [] (d ∷ q) = (λ h. cc, λ h. cc)
path_eq_iff (c ∷ p) [] = (λ h. cc, λ h. cc)
path_eq_iff (c ∷ p) (d ∷ q) = ground (arith, text_eq_iff c d, path_eq_iff p q)

abbrev pub pardir : Text
pardir = codes ".."

-- `os.path.dirname`
unfoldable pub dirname : FilePath → FilePath
dirname [] = []
dirname (c ∷ []) = []
dirname (c ∷ d ∷ p) = c ∷ dirname (d ∷ p)

-- `os.path.basename`
unfoldable pub basename : FilePath → Text
basename [] = []
basename (c ∷ []) = c
basename (c ∷ d ∷ p) = basename (d ∷ p)

-- `os.path.relpath(path, start)`: up from `start` to where both part, and down again.
unfoldable pub relpath : FilePath → FilePath → List Text
relpath [] [] = []
relpath (c ∷ p) [] = c ∷ p
relpath [] (s ∷ start) = map (λ _. pardir) (s ∷ start)
relpath (c ∷ p) (s ∷ start) =
    let rest = relpath p start in
    if text_eq c s then rest else map (λ _. pardir) (s ∷ start) ++ c ∷ p

-- `os.path.abspath(os.path.join(base, *rel))`
unfoldable pub resolve : FilePath → List Text → FilePath
unfolding dirname
resolve base [] = base
resolve base (c ∷ rel) = resolve (if text_eq c pardir then dirname base else base ++ c ∷ []) rel

-- The path of a text: `os.path.join(base, text)`. The text of a relative path goes below `base`.
unfoldable pub join_text : FilePath → Text → FilePath
join_text base [] = base
join_text base (c ∷ t) = if c == b'/' then split_on b'/' t else base ++ split_on b'/' (c ∷ t)

-- The text of a relative path.
abbrev pub path_text : List Text → Text
path_text rel = join (b'/' ∷ []) rel

-- `is_below root p`: `p` is `root` or below it.
unfoldable pub is_below : FilePath → FilePath → Bool
is_below [] p = true
is_below (r ∷ root) [] = false
is_below (r ∷ root) (c ∷ p) = text_eq r c && is_below root p

-- `suffix` joined to the last component.
unfoldable pub add_suffix : FilePath → Text → FilePath
add_suffix [] suffix = []
add_suffix (c ∷ []) suffix = (c ++ suffix) ∷ []
add_suffix (c ∷ d ∷ p) suffix = c ∷ add_suffix (d ∷ p) suffix

path_le : FilePath → FilePath → Bool
path_le [] q = true
path_le (c ∷ p) [] = false
path_le (c ∷ p) (d ∷ q) = if text_eq c d then path_le p q else text_le c d

insert_path : FilePath → List FilePath → List FilePath
insert_path w [] = w ∷ []
insert_path w (v ∷ vs) = if path_le w v then w ∷ v ∷ vs else v ∷ insert_path w vs

-- The order of a walk whose `dirnames` are sorted.
unfoldable pub sort_paths : List FilePath → List FilePath
unfolding insert_path path_le text_le
sort_paths [] = []
sort_paths (w ∷ ws) = insert_path w (sort_paths ws)
