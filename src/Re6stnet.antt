-- ===== src/Re6stnet.antt =====
-- slapos/recipe/re6stnet: the tokens that a re6st registry hands to the shared instances. The
-- recipe (`__init__.py`) gives each instance a token and leaves requests in a directory; the
-- manager (`re6stnet.py`) carries them out at the registry and publishes the result.
pub mod Manager
mod Tokens
mod Certificate
mod Requests
mod Tests
use slapos_abilian_edge.Base.{ℕ, suc, String, ◌<>◌, List, [], ◌∷◌, ◌++◌, if◌then◌else◌, contains}
use slapos_abilian_edge.Base.Dict.{Dict, insert, erase, has}
use slapos_abilian_edge.Base.Py.{index_error, Outcome, ok, raised, bind, Py, run_on, catching}
use slapos_abilian_edge.Base.Text.{Text, codes}
use slapos_abilian_edge.Base.Str.{str_split}

-- A directory: the texts of its files by name.
abbrev pub Files : Type 0
Files = Dict Text

abbrev pub Tokens : Type 0
Tokens = Dict Text

-- `random.sample(string.ascii_lowercase, 20)`, the draw number `n`
abbrev pub Sample : Type 0
Sample = ℕ → Text

-- `reference.split('-')[1]`
unfoldable pub number_of : String → Outcome String
number_of reference = elim (str_split b'-' reference) [
  | [] ↦ raised index_error
  | _ ∷ rest ↦ elim rest [ [] ↦ raised index_error | number ∷ _ ↦ ok number ]
]

-- The loop that gives a token to each reference without one: all tokens, and the new ones.
unfoldable pub add_tokens : Sample → ℕ → List String → Tokens → Tokens → Outcome (Tokens × Tokens)
unfolding number_of
add_tokens sample n [] tokens to_add = ok (tokens, to_add)
add_tokens sample n (reference ∷ references) tokens to_add =
    if has reference tokens
    then add_tokens sample n references tokens to_add
    else bind (number_of reference) λ number.
      let token = codes number ++ sample n in
      add_tokens sample (suc n) references (insert reference token tokens)
        (insert reference token to_add)

-- The loop over `list(token_dict)` that takes away what has no reference: what stays, and what
-- goes.
unfoldable pub drop_tokens : List String → Tokens → Tokens × Tokens
drop_tokens references [] = ([], [])
drop_tokens references ((reference, token) ∷ tokens) =
    let rest = drop_tokens references tokens in
    if contains references reference
    then ((reference, token) ∷ rest.0, rest.1)
    else (rest.0, (reference, token) ∷ rest.1)

pub record Generated : Type 0 where
  pub token_dict : Tokens
  pub to_add_dict : Tokens
  pub to_remove_dict : Tokens

unfoldable pub generated : List String → Tokens × Tokens → Generated
unfolding drop_tokens
generated references (tokens, to_add) =
    let dropped = drop_tokens references tokens in
    record { token_dict = dropped.0; to_add_dict = to_add; to_remove_dict = dropped.1 }

-- `generateSlaveTokenList`, from the tokens of the file
unfoldable pub generate_slave_token_list : Sample → List String → Tokens → Outcome Generated
unfolding add_tokens generated
generate_slave_token_list sample references saved =
    bind (add_tokens sample 0 references saved []) (λ added. ok (generated references added))

-- `createFile` unless the file is there
unfoldable pub create_missing : String → Text → Files → Files
create_missing name text files = if has name files then files else insert name text files

unfoldable pub add_requests : Tokens → Files → Files
unfolding create_missing
add_requests [] files = files
add_requests ((reference, token) ∷ tokens) files =
    add_requests tokens (create_missing (reference <> ".add") token files)

-- A new request to remove withdraws the one to add.
unfoldable pub remove_requests : Tokens → Files → Files
remove_requests [] files = files
remove_requests ((reference, token) ∷ tokens) files = remove_requests tokens (
    if has (reference <> ".remove") files
    then files
    else erase (reference <> ".add") (insert (reference <> ".remove") token files))

-- The part of `install` between the certificate and the manager's script: the new tokens, which
-- are saved, and the directory of requests.
unfoldable pub install_tokens : Sample → List String → Tokens → Files → Outcome (Tokens × Files)
unfolding generate_slave_token_list add_requests remove_requests
install_tokens sample references saved files =
    bind (generate_slave_token_list sample references saved)
      λ g. ok (g.token_dict, remove_requests g.to_remove_dict (add_requests g.to_add_dict files))

-- The options of the certificate, and openssl: a command changes files, and may fail.
pub record Openssl : Type 0 where
  pub key_file : String
  pub cert_file : String
  pub dh_file : String
  pub openssl_bin : String
  pub key_size : String
  -- `getSerialFromIpv6` of the option `ipv6-prefix`, which stands on `slapos.util`
  pub serial : Outcome String
  pub check_call : List String → Files → Outcome (Unit {0}) × Files

-- A command that makes a file; what it leaves is removed if it fails.
unfoldable pub make_file : Openssl → String → List String → Py Files (Unit {0})
make_file O path command files =
    catching (O.check_call command files) λ e fs. (raised e, erase path fs)

unfoldable pub dh_command : Openssl → List String
dh_command O = O.openssl_bin ∷ "dhparam" ∷ "-out" ∷ O.dh_file ∷ O.key_size ∷ []

unfoldable pub key_command : Openssl → List String
key_command O = O.openssl_bin ∷ "genrsa" ∷ "-out" ∷ O.key_file ∷ O.key_size ∷ []

unfoldable pub cert_command : Openssl → String → List String
cert_command O serial =
    O.openssl_bin ∷ "req" ∷ "-nodes" ∷ "-new" ∷ "-sha256" ∷ "-x509" ∷ "-batch" ∷ "-key" ∷ O.key_file
    ∷ "-set_serial" ∷ serial ∷ "-days" ∷ "3650" ∷ "-out" ∷ O.cert_file ∷ []

unfoldable pub make_dh : Openssl → Py Files (Unit {0})
unfolding make_file dh_command
make_dh O files =
    if has O.dh_file files then (ok tt, files) else make_file O O.dh_file (dh_command O) files

unfoldable pub make_cert : Openssl → Py Files (Unit {0})
unfolding make_file key_command cert_command
make_cert O files = if has O.cert_file files then (ok tt, files) else elim O.serial [
  | raised e ↦ (raised e, files)
  | ok serial ↦
      run_on (make_file O O.key_file (key_command O) files)
        λ _. make_file O O.cert_file (cert_command O serial)
]

-- `generateCertificate`
unfoldable pub generate_certificate : Openssl → Py Files (Unit {0})
unfolding make_dh make_cert
generate_certificate O files = run_on (make_dh O files) (λ _. make_cert O)
