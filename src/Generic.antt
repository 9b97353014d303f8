-- ===== src/Generic.antt =====
-- slapos/recipe/librecipe/generic.py: GenericBaseRecipe, with the files and the directories that
-- recipes create, the wrappers, and the values of options.
mod Files
mod Tests
use slapos_abilian_edge.Shell.{wrapper_text, Environ}
use slapos_abilian_edge.Base.{ℕ, suc, String, Bool, true, false, not, ◌&&◌, ◌||◌, Option, none}
use slapos_abilian_edge.Base.{some, List, [], ◌∷◌, ◌++◌, map, ◌==◌, if◌then◌else◌, length, take}
use slapos_abilian_edge.Base.Dict.{Dict, lookup, insert, erase}
use slapos_abilian_edge.Base.Py.{assertion_error, user_error, missing_option, os_error, plain}
use slapos_abilian_edge.Base.Py.{Outcome, ok, raised, bind, Py}
use slapos_abilian_edge.Base.Text.{Text, codes, text_eq, is_white, lstrip, split_on, join, has_char}
use slapos_abilian_edge.Base.Text.{show}
use slapos_abilian_edge.Base.Str.{path_join, lines, is_true_value}

-- What stands at a path. The number of the inode tells a file that was written again from one that
-- was kept.
pub data Node : Type 0 where
  file : (content : Text) (mode inode : ℕ) → Node
  directory : Node

pub record Disk : Type 0 where
  pub nodes : Dict Node
  pub next_inode : ℕ

-- The system: whether the owner of a file may read it, the number of the error of a new file at a
-- path (0 for none, as where its directory is missing or refuses it), what a new file may do without `fchmod`, and the current directory.
pub record System : Type 0 where
  pub can_read : ℕ → Bool
  pub write_error : String → ℕ
  pub default_mode : ℕ
  pub abspath : String → String

module _ (Y : System) where
  -- The first `try`: whether the file has the content, of which one byte more is read.
  unfoldable pub same_content : Option Node → Text → Bool
  unfolding text_eq
  same_content none content = false
  same_content (some directory) content = false
  same_content (some (file c mode inode)) content =
      Y.can_read mode && text_eq (take (suc (length content)) c) content

  -- `mode` of `fchmod`, when the file that is kept has another one.
  unfoldable pub kept_node : Option ℕ → Node → Node
  kept_node (some mode) (file c m inode) = file c mode inode
  kept_node mode node = node

  abbrev pub mode_of : Option ℕ → ℕ
  mode_of (some mode) = mode
  mode_of none = Y.default_mode

  -- `os.unlink`: the number of the error, 0 for none.
  unfoldable pub unlink_error : String → Option Node → ℕ
  unlink_error name none = 2
  unlink_error name (some directory) = 21
  unlink_error name (some (file _ _ _)) = Y.write_error name

  -- The file that `open(name, 'wb')` makes after the removal.
  unfoldable pub write_file : String → Text → Option ℕ → Py Disk String
  write_file name content mode disk =
      if Y.write_error name == 0
      then (
        ok (Y.abspath name),
        record {
          nodes = insert name (file content (mode_of mode) disk.next_inode) (erase name disk.nodes);
          next_inode = suc disk.next_inode;
        },
      )
      else (raised (os_error (Y.write_error name)), disk)

  unfoldable pub replace_file : ℕ → String → Text → Option ℕ → Py Disk String
  unfolding write_file
  replace_file e name content mode disk =
      if e == 0 || e == 2 then write_file name content mode disk else (raised (os_error e), disk)

  unfoldable pub keep_or_replace : Bool → Option Node → String → Text → Option ℕ → Py Disk String
  unfolding kept_node unlink_error replace_file
  keep_or_replace true (some node) name content mode disk = (
    ok (Y.abspath name),
    record { nodes = insert name (kept_node mode node) disk.nodes; next_inode = disk.next_inode },
  )
  keep_or_replace _ node name content mode disk =
      replace_file (unlink_error name node) name content mode disk

  -- `createFile`
  unfoldable pub create_file : String → Text → Option ℕ → Py Disk String
  unfolding same_content keep_or_replace lookup
  create_file name content mode disk =
      let node = lookup name disk.nodes in
      keep_or_replace (same_content node content) node name content mode disk

  -- `createExecutable`
  unfoldable pub create_executable : String → Text → Py Disk String
  unfolding create_file
  create_executable name content = create_file name content (some 448)

  -- `createDirectory`
  unfoldable pub create_directory : String → String → Py Disk String
  unfolding path_join lookup
  create_directory parent name disk =
      let path = path_join parent name in
      elim (lookup path disk.nodes) as (λ _. Outcome String × Disk) [
        | some directory ↦ (ok path, disk)
        | some (file _ _ _) ↦ (raised (plain "exists but is not a directory"), disk)
        | none ↦
            if Y.write_error path == 0
            then (
              ok path,
              record { nodes = insert path directory disk.nodes; next_inode = disk.next_inode },
            )
            else (raised (os_error (Y.write_error path)), disk)
      ]

-- A call of `easy_install.scripts`: the file, the module, the function, the directory and the
-- arguments.
pub record Script : Type 0 where
  pub filename : Text
  pub module_name : Text
  pub function_name : Text
  pub arguments : Text

abbrev pub split_dot : Option (Text × Text) → Text → Text × Text
split_dot (some (l, r)) s = (l, r)
split_dot none s = (codes "__builtin__", s)

-- `s.rsplit('.', 1)`, where `none` says that there is no dot.
unfoldable pub rsplit_dot : Text → Option (Text × Text)
rsplit_dot [] = none
rsplit_dot (c ∷ s) =
    let rest = rsplit_dot s in
    elim rest as (λ _. Option (Text × Text)) [
      | some (l, r) ↦ some (c ∷ l, r)
      | none ↦ if c == b'.' then some ([], s) else none
    ]

-- `createPythonScript`. The arguments are given by what `repr` makes of them.
unfoldable pub create_python_script : Text → Text → List Text → List (Text × Text) → Script
unfolding rsplit_dot join
create_python_script filename absolute_function args kw =
    let (module_name, function_name) = split_dot (rsplit_dot absolute_function) absolute_function in
    record {
      filename = filename;
      module_name = module_name;
      function_name = function_name;
      arguments = join (codes ", ") (args ++ map (λ e. e.0 ++ (b'=' ∷ e.1)) kw);
    }

-- What `createWrapper` does: a script for Python, or a file with a text for the shell.
pub data Wrapper : Type 0 where
  python_script : Script → Wrapper
  shell_script : Text → Wrapper

abbrev pub non_empty : Option Text → Option Text
non_empty (some []) = none
non_empty o = o

module _ (repr : Text → Text) (repr_list : List Text → Text) (repr_dict : Environ → Text) where
  abbrev pub generic_exec_arguments : List Text → Environ → List Text
  generic_exec_arguments args [] = repr_list args ∷ []
  generic_exec_arguments args (e ∷ env) = repr_list args ∷ repr_dict (e ∷ env) ∷ []

  abbrev pub with_signal : Option Text → List (Text × Text) → List (Text × Text)
  with_signal none kw = kw
  with_signal (some sig_ign) kw = kw ++ ((codes "sig_ign", repr sig_ign) ∷ [])

  -- `createWrapper`. The values of the other keywords are given by what `repr` makes of them.
  unfoldable pub create_wrapper :
      Text → List Text → Environ → Option Text → List (Text × Text) → Outcome Wrapper
  unfolding create_python_script wrapper_text
  create_wrapper filename [] env sig_ign kw = raised assertion_error
  create_wrapper filename (a ∷ args) env sig_ign [] =
      ok (shell_script (wrapper_text (a ∷ args) env (non_empty sig_ign)))
  create_wrapper filename (a ∷ args) env sig_ign (k ∷ kw) = ok (
      python_script (
        create_python_script filename (codes "slapos.recipe.librecipe.execute.generic_exec")
          (generic_exec_arguments (a ∷ args) env) (with_signal (non_empty sig_ign) (k ∷ kw))))

-- The first word of a text, and what comes after it.
unfoldable pub first_word : Text → Text × Text
unfolding is_white
first_word [] = ([], [])
first_word (c ∷ s) = let (w, r) = first_word s in if is_white c then ([], c ∷ s) else (c ∷ w, r)

abbrev size_and_path : Text → Text → Outcome (Text × Text)
size_and_path [] path = raised user_error
size_and_path (c ∷ size) [] = raised user_error
size_and_path (c ∷ size) (d ∷ path) = ok (c ∷ size, d ∷ path)

-- `line.split(None, 1)` with two parts
unfoldable pub split_size : Text → Outcome (Text × Text)
unfolding first_word lstrip
split_size line = let (size, rest) = first_word (lstrip line) in size_and_path size (lstrip rest)

unfoldable pub tmpfs_lines : List Text → Outcome (List (Text × Text))
unfolding split_size
tmpfs_lines [] = ok []
tmpfs_lines ([] ∷ lines) = tmpfs_lines lines
tmpfs_lines ((c ∷ line) ∷ lines) =
    bind (split_size (c ∷ line)) λ x. bind (tmpfs_lines lines) (λ xs. ok (x ∷ xs))

abbrev or_empty : Option Text → Text
or_empty none = []
or_empty (some t) = t

-- `parsePrivateTmpfs`
unfoldable pub parse_private_tmpfs : Dict Text → Outcome (List (Text × Text))
unfolding tmpfs_lines split_on lookup
parse_private_tmpfs options = tmpfs_lines (split_on 10 (or_empty (lookup "private-tmpfs" options)))

-- `optionIsTrue`
unfoldable pub option_is_true : Dict String → String → Option Bool → Outcome Bool
unfolding lookup is_true_value
option_is_true options optionname default = elim (lookup optionname options) [
  | some value ↦ ok (is_true_value value)
  | none ↦ elim default [ some value ↦ ok value | none ↦ raised missing_option ]
]

abbrev pub ends_with : ℕ → Text → Bool
ends_with c [] = false
ends_with c (d ∷ []) = c == d
ends_with c (d ∷ e ∷ s) = ends_with c (e ∷ s)

-- `re.match(r'^\[.*\]$', host)` for a host on one line
unfoldable pub in_brackets : Text → Bool
in_brackets [] = false
in_brackets (c ∷ s) = c == b'[' && ends_with b']' s

unfoldable pub host_part : Text → Text
unfolding has_char in_brackets
host_part host =
    if has_char b':' host && not (in_brackets host) then b'[' ∷ (host ++ (b']' ∷ [])) else host

abbrev pub port_part : Option ℕ → Text
port_part none = []
port_part (some port) = b':' ∷ show port

-- `quote` and `urlunparse` of the library for URLs are given.
module _ (url_quote : Text → Text) where
  abbrev pub auth_part : Option (Text × Option Text) → Text
  auth_part none = []
  auth_part (some (login, none)) = url_quote login ++ (b'@' ∷ [])
  auth_part (some (login, some password)) =
      url_quote login ++ (b':' ∷ (url_quote password ++ (b'@' ∷ [])))

  unfoldable pub netloc : Text → Option ℕ → Option (Text × Option Text) → Text
  unfolding host_part show
  netloc host port auth = auth_part auth ++ (host_part host ++ port_part port)

  -- `unparseUrl`
  unfoldable pub unparse_url :
      {U : Type 0} (urlunparse : Text → Text → Text → Text → Text → Text → U)
      → (scheme host path params query fragment : Text) → Option ℕ
      → Option (Text × Option Text)
      → U
  unfolding netloc
  unparse_url urlunparse scheme host path params query fragment port auth =
      urlunparse scheme (netloc host port auth) path params query fragment
