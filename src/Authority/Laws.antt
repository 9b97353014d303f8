-- ===== src/Authority/Laws.antt =====
-- Lemmas on slapos/recipe/certificate_authority/certificate_authority.py.
use slapos_abilian_edge.Authority.{
  Files, System, Authority, remove, remove_both, popen_communicate, clean_up, ready,
  authority_command, check_authority, request_command, sign_request, true_after, check_certificate,
}
use slapos_abilian_edge.Base.{String, ◌<>◌, ◌≡◌, refl, ap, ◌∙◌, ◌⊎◌, inl, inr, Bool, true, false}
use slapos_abilian_edge.Base.{Option, none, some, str_eq, eq_refl, if◌then◌else◌, Bool-cases}
use slapos_abilian_edge.Base.Dict.{lookup, erase, has, lookup-erase}
use slapos_abilian_edge.Base.Py.{os_error, Outcome, ok, raised, is_ok, run_on}
use slapos_abilian_edge.Base.Text.{Text}

module _ (Y : System) where
  abbrev Absent : String → Outcome (Unit {0}) × Files → Type 0
  Absent g q = has g q.1 ≡ false

  has-erase :
      (f g : String) (files : Files)
      → str_eq f g ≡ true ⊎ (has g files ≡ false)
      → has g (erase f files) ≡ false
  has-erase f g files (inl e) =
      let k : lookup g (erase f files) ≡ none = lookup-erase f g files ∙ rw e refl in
      rw (has, k) refl
  has-erase f g files (inr h) =
      ap (λ (o : Option Text). elim o as (λ _. Bool) [ none ↦ false | some _ ↦ true ])
        (lookup-erase f g files)
      ∙ go (str_eq f g)
    where
      go :
          (b : Bool)
          → (elim (if b then none else lookup g files) as (λ _. Bool) [
            | none ↦ false
            | some _ ↦ true
          ])
            ≡ false
      go true = refl
      go false = h

  remove-Gone :
      (f : String) (files : Files)
      → Y.locked f ≡ false
      → ((remove Y f files).0 ≡ ok tt) × Absent f (remove Y f files)
  remove-Gone f files l = go (Bool-cases (has f files))
    where
      go :
          (has f files ≡ true) ⊎ (has f files ≡ false)
          → ((remove Y f files).0 ≡ ok tt) × Absent f (remove Y f files)
      go (inl h) = rw (h, l) (refl, has-erase f f files (inl (eq_refl f)))
      go (inr h) = rw h (refl, h)

  remove-Absent : (f g : String) (files : Files) → has g files ≡ false → Absent g (remove Y f files)
  remove-Absent f g files h = go (has f files) (Y.locked f)
    where
      go :
          (b l : Bool)
          → Absent g (
              if b
              then if l then (raised (os_error 1), files) else (ok tt, erase f files)
              else (ok tt, files))
      go true true = h
      go true false = has-erase f g files (inr h)
      go false l = h

  -- Neither file is there.
  abbrev pub Gone : String → String → Files → Type 0
  Gone key certificate files = (has key files ≡ false) × (has certificate files ≡ false)

  remove_both-Gone :
      (key certificate : String) (files : Files)
      → Y.locked key ≡ false
      → Y.locked certificate ≡ false
      → ((remove_both Y key certificate files).0 ≡ ok tt)
        × Gone key certificate (remove_both Y key certificate files).1
  unfolding remove_both
  remove_both-Gone key certificate files lk lc = go (remove Y key files) (remove-Gone key files lk)
    where
      go :
          (q : Outcome (Unit {0}) × Files)
          → (q.0 ≡ ok tt) × (has key q.1 ≡ false)
          → ((run_on {B = Unit {0}} q (λ _. remove Y certificate)).0 ≡ ok tt)
            × Gone key certificate (run_on {B = Unit {0}} q (λ _. remove Y certificate)).1
      go (ok u, fs) (e, h) =
          let (x, y) = remove-Gone certificate fs lc in (x, (remove-Absent certificate key fs h, y))
      go (raised z, fs) (e, h) = cc

  clean_up-Gone :
      {A : Type 0} (key certificate : String) (q : Outcome A × Files)
      → Y.locked key ≡ false
      → Y.locked certificate ≡ false
      → is_ok (clean_up Y key certificate q).0 ≡ false
      → Gone key certificate (clean_up Y key certificate q).1
  unfolding clean_up
  clean_up-Gone key certificate (ok a, files) lk lc h = cc
  clean_up-Gone key certificate (raised e, files) lk lc h =
      (remove_both-Gone key certificate files lk lc).1

  -- After the files were removed, whatever comes next under the cleanup.
  cleaned :
      {A : Type 0} (key certificate : String) (next : Files → Outcome A × Files)
      (q : Outcome (Unit {0}) × Files)
      → Y.locked key ≡ false
      → Y.locked certificate ≡ false
      → q.0 ≡ ok tt
      → is_ok (run_on {B = A} q (λ _ fs. clean_up Y key certificate (next fs))).0 ≡ false
      → Gone key certificate (run_on {B = A} q (λ _ fs. clean_up Y key certificate (next fs))).1
  cleaned key certificate next (ok u, fs) lk lc e = clean_up-Gone key certificate (next fs) lk lc
  cleaned key certificate next (raised z, fs) lk lc e = λ h. cc

  -- An authority that is complete is left as it is; and when the making of a new one raises an
  -- exception, neither its key nor its certificate is there, if both can be removed.
  check_authority-Gone :
      (a : Authority) (uuid : Text) (files : Files)
      → Y.locked a.key ≡ false
      → Y.locked a.certificate ≡ false
      → (ready Y a.key a.certificate files ≡ true → check_authority Y a uuid files ≡ (ok tt, files))
        × (is_ok (check_authority Y a uuid files).0 ≡ false
            → Gone a.key a.certificate (check_authority Y a uuid files).1)
  unfolding check_authority
  check_authority-Gone a uuid files lk lc = go (ready Y a.key a.certificate files)
    where
      next : Files → Outcome (Unit {0}) × Files
      next fs = popen_communicate Y (authority_command Y a uuid) fs

      rest : Outcome (Unit {0}) × Files
      rest =
          run_on {B = Unit {0}} (remove_both Y a.key a.certificate files)
            (λ _ fs. clean_up Y a.key a.certificate (next fs))

      go :
          (b : Bool)
          → (b ≡ true → (if b then (ok tt, files) else rest) ≡ (ok tt, files))
            × (is_ok (if b then (ok tt, files) else rest).0 ≡ false
                → Gone a.key a.certificate (if b then (ok tt, files) else rest).1)
      go true = ((λ _. refl), (λ h. cc))
      go false = (
        (λ h. cc),
        cleaned a.key a.certificate next (remove_both Y a.key a.certificate files) lk lc
            (remove_both-Gone a.key a.certificate files lk lc).0,
      )

  -- The same for a certificate on request: one that is there with its key is not made again, and
  -- after an exception neither is there.
  pub check_certificate-Gone :
      (a : Authority) (common_name key certificate : String) (files : Files)
      → Y.locked key ≡ false
      → Y.locked certificate ≡ false
      → (ready Y key certificate files ≡ true
          → check_certificate Y a common_name key certificate files ≡ (ok false, files))
        × (is_ok (check_certificate Y a common_name key certificate files).0 ≡ false
            → Gone key certificate (check_certificate Y a common_name key certificate files).1)
  unfolding check_certificate
  check_certificate-Gone a common_name key certificate files lk lc =
      go (ready Y key certificate files)
    where
      next : Files → Outcome Bool × Files
      next fs =
          let csr = certificate <> ".csr" in
          true_after Y (
            run_on {B = Unit {0}} (popen_communicate Y (request_command Y a common_name key csr) fs)
              (λ _. sign_request Y a certificate csr))

      rest : Outcome Bool × Files
      rest =
          run_on {B = Bool} (remove_both Y key certificate files)
            (λ _ fs. clean_up Y key certificate (next fs))

      go :
          (b : Bool)
          → (b ≡ true → (if b then (ok false, files) else rest) ≡ (ok false, files))
            × (is_ok (if b then (ok false, files) else rest).0 ≡ false
                → Gone key certificate (if b then (ok false, files) else rest).1)
      go true = ((λ _. refl), (λ h. cc))
      go false = (
        (λ h. cc),
        cleaned key certificate next (remove_both Y key certificate files) lk lc
            (remove_both-Gone key certificate files lk lc).0,
      )
