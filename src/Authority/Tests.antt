-- ===== src/Authority/Tests.antt =====
-- An authority whose openssl fails after it wrote the key, and key pairs on request.
use slapos_abilian_edge.Authority.{
  Files, System, Authority, ready, check_authority, check_certificate,
}
use slapos_abilian_edge.Authority.Laws.{Gone, check_certificate-Gone}
use slapos_abilian_edge.Authority.SshKeys
use slapos_abilian_edge.Authority.SshKeys.{KeyRequest, sshkeys_authority}
use slapos_abilian_edge.Authority.KeyLaws.{Holds, Careful, sshkeys_authority-kept}
use slapos_abilian_edge.Base.{ℕ, ◌≡◌, refl, ◌∙◌, Bool, true, false, none, some, List, [], ◌∷◌}
use slapos_abilian_edge.Base.{str_eq, if◌then◌else◌}
use slapos_abilian_edge.Base.Dict.{lookup, insert, erase, has, lookup-insert}
use slapos_abilian_edge.Base.Py.{value_error, ok, raised, is_ok}
use slapos_abilian_edge.Base.Text.{Text, codes, text_eq}

abbrev system : System
system = record {
  run = λ c files. (1, insert "/ca/key" (codes "half") files);
  locked = λ f. str_eq f "/etc/passwd";
}

abbrev authority : Authority
authority = record {
  key = "/ca/key";
  certificate = "/ca/cert";
  openssl_binary = codes "openssl";
  openssl_configuration = codes "/ca/conf";
}

abbrev files : Files
files = ("/ca/cert", codes "old") ∷ ("/a.key", codes "k") ∷ []

check_certificate-Gone_example :
    (ready system "/a.key" "/a.cert" files ≡ true
      → check_certificate system authority "a" "/a.key" "/a.cert" files ≡ (ok false, files))
    × (is_ok (check_certificate system authority "a" "/a.key" "/a.cert" files).0 ≡ false
        → Gone system "/a.key" "/a.cert"
            (check_certificate system authority "a" "/a.key" "/a.cert" files).1)
check_certificate-Gone_example =
    check_certificate-Gone system authority "a" "/a.key" "/a.cert" files refl refl

half_removed :
    check_authority system authority (codes "u") files
    ≡ (raised value_error, ("/a.key", codes "k") ∷ [])
unfolding check_authority lookup insert erase
half_removed = refl

-- A key generator that makes one file, unless it is there.
abbrev generate : List Text → Files → ℕ × List Text × Files
generate command files = (
  0,
  codes "ssh-rsa AAAA" ∷ [],
  if has "/k/new" files then files else insert "/k/new" (codes "made") files,
)

abbrev generator : SshKeys.System
generator = record { run = generate; match_key = λ line. some line; locked = λ f. false }

abbrev keys : Files
keys = ("/k/old", codes "secret") ∷ []

abbrev requests : List KeyRequest
requests =
    record {
      key_type = none;
      size = none;
      private_key = some "/k/old";
      public_key = some "/k/old.pub";
    }
    ∷ record {
      key_type = none;
      size = none;
      private_key = some "/k/new";
      public_key = some "/k/new.pub";
    }
    ∷ []

keeps_old :
    (fs : Files)
    → lookup "/k/old" fs ≡ some (codes "secret")
    → lookup "/k/old" (generator.run [] fs).2 ≡ some (codes "secret")
keeps_old fs h = go (has "/k/new" fs)
  where
    go :
        (b : Bool)
        → lookup "/k/old" (if b then fs else insert "/k/new" (codes "made") fs)
          ≡ some (codes "secret")
    go true = h
    go false = lookup-insert "/k/new" "/k/old" (codes "made") fs ∙ h

careful : Careful generator "/k/old" (codes "secret") (codes "dropbearkey")
careful = record {
  makes = λ key_type private_key size fs other h. keeps_old fs h;
  shows = λ private_key fs h. keeps_old fs h;
}

sshkeys_authority-kept_example :
    Holds generator "/k/old"
      (codes "secret")
      (sshkeys_authority generator (codes "dropbearkey") requests keys).1
unfolding lookup text_eq
sshkeys_authority-kept_example =
    sshkeys_authority-kept generator "/k/old" (codes "secret") (codes "dropbearkey") careful
      requests keys ((refl, refl), ((refl, refl), tt)) refl
