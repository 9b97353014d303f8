-- ===== src/Authority/KeyLaws.antt =====
-- Lemmas on the daemon of slapos/recipe/sshkeys_authority.py.
use slapos_abilian_edge.Authority.SshKeys.{
  Files, KeyRequest, System, remove_old, checked, keygen_command, or_default, make_private,
  first_key, written, make_public, serve, serve_or_end, sshkeys_authority,
}
use slapos_abilian_edge.Base.{ℕ, String, ◌≡◌, refl, ap, ◌∙◌, inl, inr, Bool, true, false, Option}
use slapos_abilian_edge.Base.{none, some, List, [], ◌∷◌, ◌++◌, str_eq, eq_iff, ◌==◌, if◌then◌else◌}
use slapos_abilian_edge.Base.{Bool-cases, All}
use slapos_abilian_edge.Base.Dict.{lookup, insert, erase, has, lookup-insert, lookup-erase}
use slapos_abilian_edge.Base.Py.{type_error, os_error, called_process_error, Outcome, ok, raised}
use slapos_abilian_edge.Base.Py.{Py, run_on}
use slapos_abilian_edge.Base.Text.{Text, codes, text_eq}

module _ (Y : System) (p : String) (t : Text) where
  abbrev pub Holds : Files → Type 0
  Holds files = lookup p files ≡ some t

  -- The path is neither that of a private key nor that of the public key beside it.
  abbrev pub OtherKey : String → Type 0
  OtherKey private_key =
      (str_eq private_key p ≡ false)
      × (text_eq (codes private_key ++ codes ".pub") (codes p) ≡ false)

  -- The key generator changes no file but the key that it makes and the public key beside it, and
  -- none when it shows the public key of a private key.
  pub record Careful (keygen_binary : Text) : Type 0 where
    pub makes :
        (key_type : Text) (private_key : String) (size : ℕ) (files : Files)
        → OtherKey private_key
        → Holds files
        → Holds (Y.run (keygen_command keygen_binary key_type private_key size) files).2
    pub shows :
        (private_key : String) (files : Files)
        → Holds files
        → Holds (Y.run (keygen_binary ∷ codes "-f" ∷ codes private_key ∷ codes "-y" ∷ []) files).2

  abbrev Kept : Outcome (Unit {0}) × Files → Type 0
  Kept q = Holds q.1

  remove_old-Kept :
      (public_key : String) (files : Files)
      → str_eq public_key p ≡ false
      → Holds files
      → Kept (remove_old Y public_key files)
  remove_old-Kept public_key files n h = go (has public_key files) (Y.locked public_key)
    where
      go :
          (b l : Bool)
          → Kept (
              if b
              then if l then (raised (os_error 1), files) else (ok tt, erase public_key files)
              else (ok tt, files))
      go true true = h
      go true false = lookup-erase public_key p files ∙ rw n h
      go false l = h

  checked-Kept :
      (command : List Text) (q : ℕ × List Text × Files) → Holds q.2 → Kept (checked Y command q)
  checked-Kept command (status, output, files) h = go (status == 0)
    where
      go :
          (b : Bool)
          → Kept (if b then (ok tt, files) else (raised (called_process_error status []), files))
      go true = h
      go false = h

  written-Kept :
      (public_key : String) (q : ℕ × List Text × Files)
      → str_eq public_key p ≡ false
      → Holds q.2
      → Kept (written Y public_key q)
  written-Kept public_key (status, output, files) n h = go (status == 0)
    where
      go :
          (b : Bool)
          → Kept (
              if b
              then (ok tt, insert public_key (first_key Y output) files)
              else (raised type_error, files))
      go true = lookup-insert public_key p (first_key Y output) files ∙ rw n h
      go false = h

  run_on-Kept :
      (q : Outcome (Unit {0}) × Files) (k : Py Files (Unit {0}))
      → Kept q
      → ((files : Files) → Holds files → Kept (k files))
      → Kept (run_on {B = Unit {0}} q (λ _. k))
  run_on-Kept (ok u, files) k h next = next files h
  run_on-Kept (raised e, files) k h next = h

  missing-ne : (q : String) (files : Files) → Holds files → has q files ≡ false → str_eq q p ≡ false
  missing-ne q files h e = elim (Bool-cases (str_eq q p)) [
    | inl same ↦ cc (rw (ap (λ k. lookup k files) ((eq_iff q p).0 same) ∙ h, has) at e)
    | inr other ↦ other
  ]

  module _ (keygen_binary : Text) (careful : Careful keygen_binary) where
    -- The path is not that of a public key of the request.
    abbrev NoPublicKeyOf : (private_key public_key : String) → Type 0
    NoPublicKeyOf private_key public_key =
        (str_eq public_key p ≡ false)
        × (text_eq (codes private_key ++ codes ".pub") (codes p) ≡ false)

    make_private-Kept :
        (request : KeyRequest) (private_key public_key : String) (files : Files)
        → NoPublicKeyOf private_key public_key
        → Holds files
        → Kept (make_private Y keygen_binary request private_key public_key files)
    unfolding make_private
    make_private-Kept request private_key public_key files n h =
        go (has private_key files) (missing-ne private_key files h)
      where
        key_type : Text
        key_type = or_default (codes "rsa") request.key_type

        size : ℕ
        size = or_default 4096 request.size

        command : List Text
        command = keygen_command keygen_binary key_type private_key size

        go :
            (b : Bool)
            → (b ≡ false → str_eq private_key p ≡ false)
            → Kept (
                if b
                then (ok tt, files)
                else run_on {B = Unit {0}}
                    (remove_old Y public_key files)
                    (λ _ fs. checked Y command (Y.run command fs)))
        go true other = h
        go false other =
            run_on-Kept (remove_old Y public_key files) (λ fs. checked Y command (Y.run command fs))
              (remove_old-Kept public_key files n.0 h)
              (λ fs k.
                checked-Kept command (Y.run command fs)
                  (careful.makes key_type private_key size fs (other refl, n.1) k))

    make_public-Kept :
        (private_key public_key : String) (files : Files)
        → str_eq public_key p ≡ false
        → Holds files
        → Kept (make_public Y keygen_binary private_key public_key files)
    unfolding make_public
    make_public-Kept private_key public_key files n h = go (has public_key files)
      where
        command : List Text
        command = keygen_binary ∷ codes "-f" ∷ codes private_key ∷ codes "-y" ∷ []

        go :
            (b : Bool)
            → Kept (if b then (ok tt, files) else written Y public_key (Y.run command files))
        go true = h
        go false =
            written-Kept public_key (Y.run command files) n (careful.shows private_key files h)

    abbrev NoPublicKeyIn : (private_key public_key : Option String) → Type 0
    NoPublicKeyIn (some private_key) (some public_key) = NoPublicKeyOf private_key public_key
    NoPublicKeyIn (some private_key) none = Unit
    NoPublicKeyIn none public_key = Unit

    serve_or_end-Kept :
        (request : KeyRequest) (private_key public_key : Option String) (next : Py Files (Unit {0}))
        (files : Files)
        → NoPublicKeyIn private_key public_key
        → ((fs : Files) → Holds fs → Kept (next fs))
        → Holds files
        → Kept (serve_or_end Y keygen_binary request private_key public_key next files)
    unfolding serve_or_end serve
    serve_or_end-Kept request (some private_key) (some public_key) next files n rest h =
        run_on-Kept (serve Y keygen_binary request private_key public_key files) next
          (run_on-Kept (make_private Y keygen_binary request private_key public_key files)
            (make_public Y keygen_binary private_key public_key)
            (make_private-Kept request private_key public_key files n h)
            (λ fs k. make_public-Kept private_key public_key fs n.0 k))
          rest
    serve_or_end-Kept request (some private_key) none next files n rest h = h
    serve_or_end-Kept request none public_key next files n rest h = h

    -- The path is that of a public key of none of the requests.
    abbrev pub NoPublicKey : List KeyRequest → Type 0
    NoPublicKey = All (λ r. NoPublicKeyIn r.private_key r.public_key)

    -- Whatever the requests, also when the pass ends with an exception, a file that is there keeps
    -- its content, also when it is the private key of a request; if it is not the public key of a
    -- request that names both keys, nor stands beside the private key of one with `.pub`, and the
    -- key generator, asked to make a key, changes no file but that key and the one beside it with
    -- `.pub`, and none when asked for a public key.
    pub sshkeys_authority-kept :
        (requests : List KeyRequest) (files : Files)
        → NoPublicKey requests
        → Holds files
        → Holds (sshkeys_authority Y keygen_binary requests files).1
    unfolding sshkeys_authority
    sshkeys_authority-kept [] files n h = h
    sshkeys_authority-kept (request ∷ requests) files n h =
        serve_or_end-Kept request request.private_key request.public_key
          (sshkeys_authority Y keygen_binary requests) files n.0
          (λ fs k. sshkeys_authority-kept requests fs n.1 k) h
