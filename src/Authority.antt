-- ===== src/Authority.antt =====
-- slapos/recipe/certificate_authority/certificate_authority.py and
-- slapos/recipe/sshkeys_authority.py: the daemons that make keys and certificates on request.
pub mod SshKeys
mod Laws
mod KeyLaws
mod Tests
use slapos_abilian_edge.Base.{ℕ, String, ◌<>◌, Bool, true, false, ◌&&◌, List, [], ◌∷◌, ◌++◌, ◌==◌}
use slapos_abilian_edge.Base.{if◌then◌else◌}
use slapos_abilian_edge.Base.Dict.{Dict, erase, has}
use slapos_abilian_edge.Base.Py.{value_error, os_error, Outcome, ok, raised, Py, run_on}
use slapos_abilian_edge.Base.Text.{Text, codes}

abbrev pub Files : Type 0
Files = Dict Text

-- A command: its words, and what is written to its standard input.
pub record Command : Type 0 where
  pub words : List Text
  pub input : Text

-- The code that is not here: running a command, with its exit status and the files after it, and
-- the files that cannot be removed.
pub record System : Type 0 where
  pub run : Command → Files → ℕ × Files
  pub locked : String → Bool

-- A certificate authority. The words of the configuration go to openssl as they are.
pub record Authority : Type 0 where
  pub key : String
  pub certificate : String
  pub openssl_binary : Text
  pub openssl_configuration : Text

module _ (Y : System) where
  -- `os.unlink`, for a file that exists
  abbrev pub unlink : String → Py Files (Unit {0})
  unlink f files = if Y.locked f then (raised (os_error 1), files) else (ok tt, erase f files)

  -- `if os.path.exists(f): os.unlink(f)`
  abbrev pub remove : String → Py Files (Unit {0})
  remove f files = if has f files then unlink f files else (ok tt, files)

  -- `for f in file_list: ...` for the key and the certificate
  unfoldable pub remove_both : String → String → Py Files (Unit {0})
  remove_both key certificate files =
      run_on {B = Unit {0}} (remove key files) (λ _. remove certificate)

  abbrev pub exit_status : ℕ × Files → Outcome (Unit {0}) × Files
  exit_status (status, files) = if status == 0 then (ok tt, files) else (raised value_error, files)

  -- `popenCommunicate`: the output is not used by the callers.
  abbrev pub popen_communicate : Command → Py Files (Unit {0})
  popen_communicate command files = exit_status (Y.run command files)

  -- The cleanup after any exception, which is raised again: an error of the cleanup is not.
  unfoldable pub clean_up : {A : Type 0} → String → String → Outcome A × Files → Outcome A × Files
  unfolding remove_both
  clean_up key certificate (ok a, files) = (ok a, files)
  clean_up key certificate (raised e, files) = (raised e, (remove_both key certificate files).1)

  abbrev pub ready : String → String → Files → Bool
  ready key certificate files = has key files && has certificate files

  -- The command for a new authority, `uuid` being the text of `uuid.uuid1()`.
  abbrev pub authority_command : Authority → Text → Command
  authority_command a uuid = record {
    words =
        a.openssl_binary
        ∷ codes "req"
        ∷ codes "-utf8"
        ∷ codes "-nodes"
        ∷ codes "-config"
        ∷ a.openssl_configuration
        ∷ codes "-new"
        ∷ codes "-sha256"
        ∷ codes "-x509"
        ∷ codes "-extensions"
        ∷ codes "v3_ca"
        ∷ codes "-keyout"
        ∷ codes a.key
        ∷ codes "-out"
        ∷ codes a.certificate
        ∷ codes "-days"
        ∷ codes "10950"
        ∷ [];
    input = codes "Certificate Authority " ++ (uuid ++ (10 ∷ []));
  }

  -- `checkAuthority`
  unfoldable pub check_authority : Authority → Text → Py Files (Unit {0})
  unfolding remove_both clean_up
  check_authority a uuid files =
      if ready a.key a.certificate files
      then (ok tt, files)
      else run_on {B = Unit {0}} (remove_both a.key a.certificate files)
          λ _ fs. clean_up a.key a.certificate (popen_communicate (authority_command a uuid) fs)

  abbrev pub request_command : Authority → (common_name key csr : String) → Command
  request_command a common_name key csr = record {
    words =
        a.openssl_binary
        ∷ codes "req"
        ∷ codes "-config"
        ∷ a.openssl_configuration
        ∷ codes "-nodes"
        ∷ codes "-new"
        ∷ codes "-sha256"
        ∷ codes "-keyout"
        ∷ codes key
        ∷ codes "-out"
        ∷ codes csr
        ∷ codes "-days"
        ∷ codes "3650"
        ∷ [];
    input = codes common_name ++ (10 ∷ []);
  }

  abbrev pub sign_command : Authority → (certificate csr : String) → Command
  sign_command a certificate csr = record {
    words =
        a.openssl_binary
        ∷ codes "ca"
        ∷ codes "-batch"
        ∷ codes "-config"
        ∷ a.openssl_configuration
        ∷ codes "-out"
        ∷ codes certificate
        ∷ codes "-infiles"
        ∷ codes csr
        ∷ [];
    input = [];
  }

  -- `finally: if os.path.exists(csr): os.unlink(csr)`; an error of it replaces the outcome.
  abbrev pub finally_remove : String → Outcome (Unit {0}) × Files → Outcome (Unit {0}) × Files
  finally_remove csr (r, files) = run_on {B = Unit {0}} (remove csr files) (λ _ fs. (r, fs))

  abbrev pub sign_request : Authority → (certificate csr : String) → Py Files (Unit {0})
  sign_request a certificate csr files =
      finally_remove csr (popen_communicate (sign_command a certificate csr) files)

  abbrev pub true_after : Outcome (Unit {0}) × Files → Outcome Bool × Files
  true_after (ok _, files) = (ok true, files)
  true_after (raised e, files) = (raised e, files)

  -- `_checkCertificate`: whether a certificate was made.
  unfoldable pub check_certificate :
      Authority → (common_name key certificate : String) → Py Files Bool
  unfolding remove_both clean_up
  check_certificate a common_name key certificate files =
      let csr = certificate <> ".csr" in
      if ready key certificate files
      then (ok false, files)
      else run_on {B = Bool} (remove_both key certificate files) λ _ fs.
        clean_up {A = Bool} key certificate (
          true_after (
            run_on {B = Unit {0}} (popen_communicate (request_command a common_name key csr) fs)
              (λ _. sign_request a certificate csr)))

  -- A request that was read, `name`, `key_file` and `certificate_file`, or the exception of its
  -- parser.
  abbrev pub Request : Type 0
  Request = Outcome (String × String × String)

  abbrev pub check_request : Authority → Request → Py Files Bool
  check_request a (raised e) files = (raised e, files)
  check_request a (ok (name, key, certificate)) files =
      check_certificate a name key certificate files

  -- `checkRequestDir`: an exception ends the pass.
  unfoldable pub check_request_dir : Authority → List Request → Py Files (Unit {0})
  unfolding check_certificate
  check_request_dir a [] files = (ok tt, files)
  check_request_dir a (request ∷ requests) files =
      run_on {B = Unit {0}} (check_request a request files) (λ _. check_request_dir a requests)

  -- A round of `runCertificateAuthority`, before its pause.
  unfoldable pub round : Authority → Text → List Request → Py Files (Unit {0})
  unfolding check_authority check_request_dir
  round a uuid requests files =
      run_on {B = Unit {0}} (check_authority a uuid files) (λ _. check_request_dir a requests)
