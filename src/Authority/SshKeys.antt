-- ===== src/Authority/SshKeys.antt =====
-- slapos/recipe/sshkeys_authority.py: the making of SSH keys.
use slapos_abilian_edge.Base.{ℕ, String, Bool, ◌||◌, Option, none, some, List, [], ◌∷◌, ◌==◌}
use slapos_abilian_edge.Base.{if◌then◌else◌}
use slapos_abilian_edge.Base.Dict.{Dict, insert, erase, has}
use slapos_abilian_edge.Base.Py.{type_error, os_error, called_process_error, Outcome, ok, raised}
use slapos_abilian_edge.Base.Py.{Py, run_on}
use slapos_abilian_edge.Base.Text.{Text, codes, starts, show}

abbrev pub Files : Type 0
Files = Dict Text

-- A request for a key pair; a path is `none` where the request has no such key.
pub record KeyRequest : Type 0 where
  pub key_type : Option Text
  pub size : Option ℕ
  pub private_key : Option String
  pub public_key : Option String

-- The code that is not here: a command with its exit status, its output by lines and the files
-- after it, the search for a public key in a line, and the files that cannot be removed.
pub record System : Type 0 where
  pub run : List Text → Files → ℕ × List Text × Files
  pub match_key : Text → Option Text
  pub locked : String → Bool

abbrev pub or_default {ℓ} : {A : Type ℓ} → A → Option A → A
or_default d none = d
or_default d (some a) = a

-- `'openssh' in keygen_binary`
unfoldable pub has_text : Text → Text → Bool
unfolding starts
has_text t [] = starts [] t
has_text t (c ∷ s) = starts (c ∷ s) t || has_text t s

-- The command that makes a private key.
unfoldable pub keygen_command :
    Text → (key_type : Text) → (private_key : String) → (size : ℕ) → List Text
unfolding has_text show
keygen_command keygen_binary key_type private_key size =
    if has_text (codes "openssh") keygen_binary
    then keygen_binary
      ∷ codes "-N"
      ∷ []
      ∷ codes "-C"
      ∷ []
      ∷ codes "-t"
      ∷ key_type
      ∷ codes "-f"
      ∷ codes private_key
      ∷ codes "-b"
      ∷ show size
      ∷ []
    else keygen_binary
      ∷ codes "-t"
      ∷ key_type
      ∷ codes "-f"
      ∷ codes private_key
      ∷ codes "-s"
      ∷ show size
      ∷ []

module _ (Y : System) where
  unfoldable pub first_key : List Text → Text
  first_key [] = []
  first_key (line ∷ output) =
      let rest = first_key output in elim (Y.match_key line) [ none ↦ rest | some key ↦ key ]

  abbrev pub remove_old : String → Py Files (Unit {0})
  remove_old public_key files =
      if has public_key files
      then if Y.locked public_key
        then (raised (os_error 1), files)
        else (ok tt, erase public_key files)
      else (ok tt, files)

  abbrev pub checked : List Text → ℕ × List Text × Files → Outcome (Unit {0}) × Files
  checked command (status, output, files) =
      if status == 0 then (ok tt, files) else (raised (called_process_error status []), files)

  -- The private key, if it is not there.
  unfoldable pub make_private :
      Text → KeyRequest → (private_key public_key : String) → Py Files (Unit {0})
  unfolding keygen_command
  make_private keygen_binary request private_key public_key files =
      if has private_key files
      then (ok tt, files)
      else run_on {B = Unit {0}} (remove_old public_key files) λ _ fs.
        let command =
          keygen_command keygen_binary (or_default (codes "rsa") request.key_type) private_key
            (or_default 4096 request.size) in
        checked command (Y.run command fs)

  -- With an exit status that is not 0, the exception is made with one argument of two: TypeError.
  abbrev pub written : String → ℕ × List Text × Files → Outcome (Unit {0}) × Files
  written public_key (status, output, files) =
      if status == 0
      then (ok tt, insert public_key (first_key output) files)
      else (raised type_error, files)

  -- The public key, if it is not there.
  unfoldable pub make_public : Text → (private_key public_key : String) → Py Files (Unit {0})
  unfolding first_key
  make_public keygen_binary private_key public_key files =
      if has public_key files
      then (ok tt, files)
      else written public_key
          (Y.run (keygen_binary ∷ codes "-f" ∷ codes private_key ∷ codes "-y" ∷ []) files)

  -- A round of the loop for a request with both paths.
  unfoldable pub serve : Text → KeyRequest → (private_key public_key : String) → Py Files (Unit {0})
  unfolding make_private make_public
  serve keygen_binary request private_key public_key files =
      run_on {B = Unit {0}} (make_private keygen_binary request private_key public_key files)
        (λ _. make_public keygen_binary private_key public_key)

  -- A request without a path ends the loop.
  unfoldable pub serve_or_end :
      Text
      → KeyRequest
      → (private_key public_key : Option String) → Py Files (Unit {0})
      → Py Files (Unit {0})
  unfolding serve
  serve_or_end keygen_binary request (some private_key) (some public_key) next files =
      run_on {B = Unit {0}} (serve keygen_binary request private_key public_key files) (λ _. next)
  serve_or_end keygen_binary request private_key public_key next files = (ok tt, files)

  -- `sshkeys_authority` on the requests that are found.
  unfoldable pub sshkeys_authority : Text → List KeyRequest → Py Files (Unit {0})
  unfolding serve_or_end
  sshkeys_authority keygen_binary [] files = (ok tt, files)
  sshkeys_authority keygen_binary (request ∷ requests) files =
      serve_or_end keygen_binary request request.private_key request.public_key
        (sshkeys_authority keygen_binary requests) files
