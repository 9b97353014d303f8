-- ===== src/Re6stnet/Certificate.antt =====
-- Lemmas on `generateCertificate` of slapos/recipe/re6stnet/__init__.py.
use slapos_abilian_edge.Base.{String, ◌≡◌, refl, ap, ◌∙◌, ◌⊎◌, inl, inr, false, List, eq_refl}
use slapos_abilian_edge.Base.{Bool-cases}
use slapos_abilian_edge.Base.Dict.{erase, has, lookup-erase}
use slapos_abilian_edge.Base.Py.{Exc, Outcome, ok, raised, run_on, catching}
use slapos_abilian_edge.Re6stnet.{
  Files, Openssl, make_file, dh_command, key_command, cert_command, make_dh, make_cert,
  generate_certificate,
}

erased : (path : String) (fs : Files) → has path (erase path fs) ≡ false
erased path fs = rw (has, lookup-erase path path fs, eq_refl path) refl

make_file-fails :
    (O : Openssl) (path : String) (command : List String) (files fs : Files) (e : Exc)
    → make_file O path command files ≡ (raised e, fs)
    → has path fs ≡ false
unfolding make_file
make_file-fails O path command files fs e h = go (O.check_call command files) h
  where
    go :
        (p : Outcome (Unit {0}) × Files)
        → catching {A = Unit {0}} p (λ e fs. (raised e, erase path fs)) ≡ (raised e, fs)
        → has path fs ≡ false
    go (ok u, fs₁) q = cc
    go (raised e₁, fs₁) q = rw (← (ap (λ r. r.1) q)) (erased path fs₁)

-- One of the files that a failed generation was to make.
abbrev pub Unfinished : Openssl → Files → Type 0
Unfinished O fs =
    (has O.dh_file fs ≡ false) ⊎ ((has O.key_file fs ≡ false) ⊎ (has O.cert_file fs ≡ false))

make_cert-fails :
    (O : Openssl) (files fs : Files) (e : Exc)
    → make_cert O files ≡ (raised e, fs)
    → (has O.key_file fs ≡ false) ⊎ (has O.cert_file fs ≡ false)
unfolding make_cert
make_cert-fails O files fs e h = elim (Bool-cases (has O.cert_file files)) [
  | inl c ↦
      let stuck : ◌≡◌ {A = Outcome (Unit {0}) × Files} (ok tt, files) (raised e, fs) = rw c at h in
      cc
  | inr c ↦ numbered c O.serial (rw c at h)
]
  where
    keyed :
        (serial : String) (p : Outcome (Unit {0}) × Files)
        → make_file O O.key_file (key_command O) files ≡ p
        → run_on p (λ _. make_file O O.cert_file (cert_command O serial)) ≡ (raised e, fs)
        → (has O.key_file fs ≡ false) ⊎ (has O.cert_file fs ≡ false)
    keyed serial (ok u, fs₁) q f =
        inr (make_file-fails O O.cert_file (cert_command O serial) fs₁ fs e f)
    keyed serial (raised e₁, fs₁) q f =
        inl (make_file-fails O O.key_file (key_command O) files fs e (q ∙ f))

    numbered :
        has O.cert_file files ≡ false
        → (n : Outcome String)
        → (elim n as (λ _. Outcome (Unit {0}) × Files) [
          | raised e ↦ (raised e, files)
          | ok serial ↦
              run_on
                (make_file O O.key_file (key_command O) files)
                λ _. make_file O O.cert_file (cert_command O serial)
        ])
          ≡ (raised e, fs)
        → (has O.key_file fs ≡ false) ⊎ (has O.cert_file fs ≡ false)
    numbered c (raised e₁) q = inr (rw (← (ap (λ p. p.1) q)) c)
    numbered c (ok serial) q = keyed serial (make_file O O.key_file (key_command O) files) refl q

-- When the generation of the certificate raises an exception, at least one of the three files is
-- not there: what the command that failed had written is removed, so it is not taken for done.
pub generate_certificate-Unfinished :
    (O : Openssl) (files fs : Files) (e : Exc)
    → generate_certificate O files ≡ (raised e, fs)
    → Unfinished O fs
unfolding generate_certificate make_dh
generate_certificate-Unfinished O files fs e h = elim (Bool-cases (has O.dh_file files)) [
  | inl c ↦ inr (make_cert-fails O files fs e (rw c at h))
  | inr c ↦ go (make_file O O.dh_file (dh_command O) files) refl (rw c at h)
]
  where
    go :
        (p : Outcome (Unit {0}) × Files)
        → make_file O O.dh_file (dh_command O) files ≡ p
        → run_on p (λ _. make_cert O) ≡ (raised e, fs)
        → Unfinished O fs
    go (ok u, fs₁) q f = inr (make_cert-fails O fs₁ fs e f)
    go (raised e₁, fs₁) q f = inl (make_file-fails O O.dh_file (dh_command O) files fs e (q ∙ f))
