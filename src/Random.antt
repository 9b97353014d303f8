-- ===== src/Random.antt =====
-- slapos/recipe/random.py: random integers, times, hardware addresses and passwords.
mod Laws
mod Tests
use Prim.Native.Char.{code}
use slapos_abilian_edge.Base.{ℕ, zero, suc, ◌+◌, ◌-◌, ◌/◌, ◌%◌, String, ◌<>◌, Bool, true, false}
use slapos_abilian_edge.Base.{not, Option, none, some, List, [], ◌∷◌, ◌++◌, map, ltb, ◌==◌}
use slapos_abilian_edge.Base.{if◌then◌else◌, length}
use slapos_abilian_edge.Base.Dict.{Dict, lookup, insert}
use slapos_abilian_edge.Base.Py.{key_error, value_error, type_error, os_error, Outcome, ok, raised}
use slapos_abilian_edge.Base.Py.{bind, run_on}
use slapos_abilian_edge.Base.Text.{print, Text, codes, text_eq, join, ℤ, pos, negsuc, int, show}
use slapos_abilian_edge.Base.Str.{strip_prefix}

-- What `open` meets at a path: a text, or an error number. A path without an entry does not
-- exist (ENOENT).
pub data Node : Type 0 where
  file : Text → Node
  broken : ℕ → Node

abbrev pub Files : Type 0
Files = Dict Node

-- A value that `json.loads` gives: a dictionary of texts, or something else.
pub data Json : Type 0 where
  dict : Dict Text → Json
  other : Json

-- What is not in this repository: the random source, `json` and `passlib.hash`.
pub record Tools : Type 0 where
  -- the draw number `n` of `randint(low, high)`
  pub randint : ℕ → ℤ → ℤ → Outcome ℤ
  -- the draw number `n` of `randint(0, high)`
  pub randint_to : ℕ → ℕ → ℕ
  -- the draw number `n` of `SystemRandom().choice(alphabet)`
  pub choice : ℕ → Text → ℕ
  pub loads : Text → Outcome Json
  pub dumps : Dict Text → Text
  -- `getattr(passlib.hash, scheme, None).hash`
  pub handler : String → Option (Text → Text)

-- `open(path).read()`
unfoldable pub read : String → Files → Outcome Text
read path files = elim (lookup path files) [
  | none ↦ raised (os_error 2)
  | some (file text) ↦ ok text
  | some (broken n) ↦ raised (os_error n)
]

-- `open(path, 'w').write(text)`
unfoldable pub write : String → Text → Files → Outcome (Unit {0}) × Files
write path text files = elim (lookup path files) [
  | none ↦ (ok tt, insert path (file text) files)
  | some (file _) ↦ (ok tt, insert path (file text) files)
  | some (broken n) ↦ (raised (os_error n), files)
]

-- `read`, or nothing when there is no file.
unfoldable pub read_if : String → Files → Outcome (Option Text)
unfolding read
read_if path files = elim (read path files) [
  | ok text ↦ ok (some text)
  | raised (os_error n) ↦ if n == 2 then ok none else raised (os_error n)
  | raised e ↦ raised e
]

-- A text that Python takes for true.
unfoldable pub given : Option Text → Option Text
given none = none
given (some []) = none
given (some (c ∷ t)) = some (c ∷ t)

-- `Integer.__init__`: the option `value`.
unfoldable pub integer : Tools → Option Text → Text → Text → Outcome Text
integer T (some value) minimum maximum = ok value
integer T none minimum maximum = elim (int minimum) [
  | none ↦ raised value_error
  | some low ↦ elim (int maximum) [
    | none ↦ raised value_error
    | some high ↦ bind (T.randint 0 low high) (λ n. ok (print n))
  ]
]

-- `'%02u' % n`
unfoldable pub two_digits : ℕ → Text
two_digits n = if ltb n 10 then b'0' ∷ show n else show n

-- `Time.__init__`: the option `time`.
unfoldable pub time : Tools → Option Text → Outcome Text
unfolding two_digits
time T (some t) = ok t
time T none = ok (show (T.randint_to 0 23) ++ b':' ∷ two_digits (T.randint_to 1 59))

-- `'%02x' % octet`
unfoldable pub hex_digit : ℕ → ℕ
hex_digit n = if ltb n 10 then b'0' + n else b'a' + (n - 10)

unfoldable pub hex_octet : ℕ → Text
unfolding hex_digit
hex_octet n = hex_digit (n / 16) ∷ hex_digit (n % 16) ∷ []

-- `[random.randint(0x00, 0xff) for x in range(k)]`, from the draw number `n`
unfoldable pub octets : Tools → ℕ → ℕ → List ℕ
octets T n zero = []
octets T n (suc k) = T.randint_to n 255 ∷ octets T (suc n) k

unfoldable pub new_mac : Tools → Text
unfolding octets hex_octet hex_digit
new_mac T = join (b':' ∷ []) (map hex_octet (254 ∷ octets T 0 5))

-- `Mac.__init__`: the address, and whether `update` installs it again.
unfoldable pub mac_init : Tools → String → Option Text → Files → Outcome (Text × Bool)
unfolding given read_if new_mac
mac_init T storage_path mac_address files = elim (given mac_address) [
  | some mac ↦ ok (mac, false)
  | none ↦
      bind (read_if storage_path files)
        λ stored. elim (given stored) [ some mac ↦ ok (mac, false) | none ↦ ok (new_mac T, true) ]
]

-- `Mac.install`
unfoldable pub mac_install : String → Text → Files → Outcome (Unit {0}) × Files
unfolding write
mac_install storage_path mac files = write storage_path mac files

-- `Mac.update`, which is `install` for a new address.
unfoldable pub mac_update : String → Text × Bool → Files → Outcome (Unit {0}) × Files
unfolding mac_install
mac_update storage_path (mac, true) files = mac_install storage_path mac files
mac_update storage_path (mac, false) files = (ok tt, files)

abbrev pub alphabet : Text
alphabet = codes "abcdefghijklmnopqrstuvwxyzABCDEFGHIJKLMNOPQRSTUVWXYZ0123456789"

-- `generatePassword`, from the draw number `n`
unfoldable pub generate_password : Tools → ℕ → ℕ → Text
generate_password T n zero = []
generate_password T n (suc length) = T.choice n alphabet ∷ generate_password T (suc n) length

pub record Options : Type 0 where
  pub bytes : Option Text
  pub passwd : Option Text

-- `content.strip('\n')`
unfoldable pub strip_newlines_left : Text → Text
strip_newlines_left [] = []
strip_newlines_left (c ∷ t) = let rest = strip_newlines_left t in if c == 10 then rest else c ∷ t

unfoldable pub strip_newlines_right : Text → Text
strip_newlines_right [] = []
strip_newlines_right (c ∷ t) = elim (strip_newlines_right t) [
  | [] ↦ if c == 10 then [] else c ∷ []
  | d ∷ rest ↦ c ∷ d ∷ rest
]

unfoldable pub strip_newlines : Text → Text
unfolding strip_newlines_left strip_newlines_right
strip_newlines t = strip_newlines_right (strip_newlines_left t)

-- The new format is JSON, the old one the password itself, beside what was in the dictionary.
unfoldable pub stored_passwords : Tools → Text → Outcome Json
stored_passwords T content = elim (T.loads content) [
  | ok j ↦ ok j
  | raised value_error ↦ ok (dict (("", content) ∷ []))
  | raised e ↦ raised e
]

-- `if passwd_option and passwd_dict[''] != passwd_option`. What is not a dictionary cannot be read
-- by a text.
unfoldable pub replace : Json → Option Text → Outcome Json
replace j none = ok j
replace other (some passwd) = raised type_error
replace (dict d) (some passwd) = elim (lookup "" d) [
  | none ↦ raised key_error
  | some t ↦ ok (if text_eq t passwd then dict d else dict (("", passwd) ∷ []))
]

-- `{'': passwd_option}`, where no password and the empty one serve alike.
unfoldable pub only : Option Text → Json
only none = dict (("", []) ∷ [])
only (some passwd) = dict (("", passwd) ∷ [])

-- The dictionary before a password is made up.
unfoldable pub known_passwords : Tools → Option String → Option Text → Files → Outcome Json
unfolding strip_newlines stored_passwords replace only read_if
known_passwords T none passwd files = ok (only passwd)
known_passwords T (some path) passwd files = bind (read_if path files) λ stored. elim stored [
  | none ↦ replace (only passwd) passwd
  | some content ↦ bind (stored_passwords T (strip_newlines content)) λ j. replace j passwd
]

-- The number of turns of `range(n)`
unfoldable pub turns : ℤ → ℕ
turns (pos n) = n
turns (negsuc n) = 0

-- `if not passwd_dict['']`: the dictionary, and whether `update` installs it again.
unfoldable pub completed : Tools → Option Text → Json → Outcome (Dict Text × Bool)
unfolding generate_password turns
completed T bytes other = raised type_error
completed T bytes (dict d) = elim (lookup "" d) [
  | none ↦ raised key_error
  | some (c ∷ t) ↦ ok (d, false)
  | some [] ↦ elim (int (elim bytes [ some b ↦ b | none ↦ codes "16" ])) [
    | none ↦ raised value_error
    | some n ↦ ok (insert "" (generate_password T 0 (turns n)) d, true)
  ]
]

-- `Password.__init__`, without the file if the path is empty.
unfoldable pub password_init : Tools → Option String → Options → Files → Outcome (Dict Text × Bool)
unfolding known_passwords completed given
password_init T storage_path options files =
    bind (known_passwords T storage_path (given options.passwd) files)
      λ j. completed T options.bytes j

-- The comparison of the file with what is to be written.
unfoldable pub differs : Option Text → Text → Bool
differs none serialized = true
differs (some stored) serialized = not (text_eq stored serialized)

-- `Password.install`: the path is returned if the file may be made anew.
unfoldable pub password_install :
    Tools → Option String → Bool → Dict Text → Files → Outcome (Option String) × Files
unfolding read_if differs write
password_install T none create_once d files = (ok none, files)
password_install T (some path) create_once d files = elim (read_if path files) [
  | raised e ↦ (raised e, files)
  | ok stored ↦
      let returned = if create_once then none else some path in
      if differs stored (T.dumps d)
      then run_on (write path (T.dumps d) files) (λ _ fs. (ok returned, fs))
      else (ok returned, files)
]

-- `Password.update`, which is `install` for a new password.
unfoldable pub password_update :
    Tools → Option String → Bool → Dict Text × Bool → Files → Outcome (Option String) × Files
unfolding password_install
password_update T path create_once (d, true) files = password_install T path create_once d files
password_update T path create_once (d, false) files = (ok none, files)

-- `s.replace('-', '_')`
unfoldable pub underscored : String → String
underscored String.[] = ""
underscored (String.◌∷◌ c s) =
    let rest = underscored s in if code c == b'-' then "_" <> rest else String.◌∷◌ c rest

-- `HashedPasswordDict.__missing__`: the hash, and the dictionary that keeps it.
unfoldable pub missing : Tools → String → Dict Text → Outcome (Text × Dict Text)
unfolding underscored
missing T key d = elim (strip_prefix "passwd-" key) [
  | none ↦ raised key_error
  | some name ↦ elim (lookup key d) [
    | some h ↦ ok (h, d)
    | none ↦ elim (T.handler (underscored name)) [
      | none ↦ raised key_error
      | some hash ↦ elim (lookup "" d) [
        | none ↦ raised key_error
        | some passwd ↦ ok (hash passwd, insert key (hash passwd) d)
      ]
    ]
  ]
]
