-- ===== src/HttpServer.antt =====
-- slapos/recipe/simplehttpserver: the address of the server, and the files that a POST writes.
mod Laws
mod Tests
use slapos_abilian_edge.Base.{ℕ, ◌+◌, String, Bool, true, false, not, ◌&&◌, ◌||◌, Option, none}
use slapos_abilian_edge.Base.{some, List, [], ◌∷◌, ◌++◌, map, str_eq, ◌==◌, if◌then◌else◌}
use slapos_abilian_edge.Base.Dict.{Dict, lookup}
use slapos_abilian_edge.Base.Py.{key_error, value_error, user_error, Outcome, ok, raised}
use slapos_abilian_edge.Base.Text.{Text, codes, text_eq, ℤ, int}
use slapos_abilian_edge.Base.Str.{path_join, str_split, strip_prefix}

-- An absolute path by its components.
abbrev pub Parts : Type 0
Parts = List String

abbrev dropped_last : Parts → Parts
dropped_last [] = []
dropped_last (p ∷ ps) = ps

-- The components of `os.path.normpath`: the path read so far is held with its last component first.
unfoldable pub normal_from : Parts → List String → Parts
normal_from done [] = done
normal_from done (p ∷ ps) =
    normal_from
      (if str_eq p "" || str_eq p "."
        then done
        else if str_eq p ".."
        then dropped_last done
        else p ∷ done)
      ps

unfoldable pub reversed : Parts → Parts → Parts
reversed acc [] = acc
reversed acc (p ∷ ps) = reversed (p ∷ acc) ps

-- The components of `os.path.abspath(text)` for a text that begins with `/`.
unfoldable pub abspath : String → Parts
unfolding str_split normal_from reversed
abspath text = reversed [] (normal_from [] (str_split b'/' text))

-- `os.path.relpath`: what is left of both paths after their common beginning.
unfoldable pub relpath : Parts → Parts → Parts
relpath [] start = map (λ _. "..") start
relpath (p ∷ ps) [] = p ∷ ps
relpath (p ∷ ps) (q ∷ qs) =
    let rest = relpath ps qs in if str_eq p q then rest else ".." ∷ (map (λ _. "..") qs ++ (p ∷ ps))

-- `relpath.startswith(os.pardir)`: the path begins with what its first component begins with.
abbrev pub starts_with_pardir : Parts → Bool
starts_with_pardir [] = false
starts_with_pardir (p ∷ ps) = elim (strip_prefix ".." p) [ none ↦ false | some _ ↦ true ]

-- `issubpathof`
unfoldable pub issubpathof : Parts → Parts → Bool
unfolding relpath strip_prefix
issubpathof subpath path = not (starts_with_pardir (relpath subpath path))

abbrev pub dirname : Parts → Parts
dirname [] = []
dirname (p ∷ []) = []
dirname (p ∷ q ∷ ps) = p ∷ dirname (q ∷ ps)

-- What a request does outside the server, in order.
pub data Effect : Type 0 where
  make_directories : Parts → Effect
  replace : Parts → Text → Effect
  append : Parts → Text → Effect
  log_error : Parts → Effect
  respond : ℕ → Effect

-- The errors of the system: of `os.makedirs`, and of opening or writing a file; 0 for none.
pub record Errors : Type 0 where
  pub makedirs : Parts → ℕ
  pub write : Parts → ℕ

-- `content`, `path` and `clear` of the form; `none` for a field that is not there.
pub record Form : Type 0 where
  pub content : Option Text
  pub path : Option String
  pub clear : Option Text

-- `os.path.join(self.base_path, filename)`
abbrev pub file_path : (base_path filename : String) → Parts
file_path base_path filename = abspath (path_join base_path filename)

abbrev pub failed_makedirs : ℕ → Parts → List Effect
failed_makedirs e path = if e == 0 || e == 17 then [] else log_error path ∷ []

abbrev pub file_effect : Bool → Parts → Text → Effect
file_effect clear path content = if clear then replace path content else append path content

abbrev pub failed_write : ℕ → Parts → List Effect
failed_write e path = if e == 0 then [] else log_error path ∷ []

abbrev pub is_clear : Option Text → Bool
is_clear none = false
is_clear (some value) = text_eq value (codes "1")

module _ (base_path : String) (E : Errors) where
  -- `writeFile`
  unfoldable pub write_file : String → Text → Bool → List Effect
  unfolding abspath path_join issubpathof
  write_file filename content clear =
      let path = file_path base_path filename in
      if issubpathof path (abspath base_path)
      then make_directories (dirname path)
        ∷ (failed_makedirs (E.makedirs (dirname path)) path
            ++ (file_effect clear path content
                ∷ (failed_write (E.write path) path ++ (respond 200 ∷ []))))
      else respond 403 ∷ []

  -- `do_POST`: the effects, or the exception for a field that is missing.
  unfoldable pub do_post : (restrict_write : Bool) → Form → Outcome (List Effect)
  unfolding write_file text_eq
  do_post restrict_write form =
      if restrict_write
      then ok (respond 403 ∷ [])
      else elim form.content as (λ _. Outcome (List Effect)) [
        | none ↦ raised key_error
        | some content ↦ elim form.path as (λ _. Outcome (List Effect)) [
          | none ↦ raised key_error
          | some path ↦ ok (write_file path content (is_clear form.clear))
        ]
      ]

-- The address that a server listens at: a port of a host, or the path of a Unix socket.
pub data Address : Type 0 where
  inet : String → ℤ → Address
  unix : Text → Address

abbrev pub given : Option String → Bool
given none = false
given (some v) = not (str_eq v "")

abbrev pub one_if : Bool → ℕ
one_if true = 1
one_if false = 0

abbrev pub or_empty : Option String → String
or_empty none = ""
or_empty (some v) = v

abbrev pub bool_eq : Bool → Bool → Bool
bool_eq true b = b
bool_eq false b = not b

abbrev pub inet_address : String → Option ℤ → Outcome Address
inet_address host none = raised value_error
inet_address host (some port) = ok (inet host port)

-- The address that the recipe computes from its options.
unfoldable pub address : Dict String → Outcome Address
unfolding lookup int
address options =
    let host = lookup "host" options in
    let port = lookup "port" options in
    let socketpath = lookup "socketpath" options in
    let abstract = lookup "abstract" options in
    if (one_if (given host) + one_if (given socketpath) + one_if (given abstract) == 1)
      && bool_eq (given host) (given port)
    then if given host
      then inet_address (or_empty host) (int (codes (or_empty port)))
      else if given socketpath
      then ok (unix (codes (or_empty socketpath)))
      else ok (unix (0 ∷ codes (or_empty abstract)))
    else raised user_error
