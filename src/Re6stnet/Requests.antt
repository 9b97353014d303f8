-- ===== src/Re6stnet/Requests.antt =====
-- Lemmas on the requests to add a token, slapos/recipe/re6stnet/re6stnet.py.
use slapos_abilian_edge.Base.{ℕ, String, ◌≡◌, refl, ◌∙◌, ◌⊎◌, inl, inr, Bool, true, false, Option}
use slapos_abilian_edge.Base.{some, ◌∷◌, str_eq, eq_refl, if◌then◌else◌, Bool-cases}
use slapos_abilian_edge.Base.Dict.{Dict, lookup, insert, erase, has, lookup-insert, lookup-erase}
use slapos_abilian_edge.Base.Py.{Outcome, ok, raised}
use slapos_abilian_edge.Base.Text.{Text, codes, text_eq, text_eq_iff}
use slapos_abilian_edge.Re6stnet.Manager.{
  Client, stem, with_suffix, accepted, email_of, update_file, read_file, added, add_one,
}

read_lookup :
    (name : String) (fs : Dict Text) (t : Text) → lookup name fs ≡ some t → read_file name fs ≡ t
unfolding read_file
read_lookup name fs t e = rw (read_file, e) refl

update_file-read :
    (name : String) (value : Text) (fs : Dict Text)
    → read_file name (update_file name value fs) ≡ value
unfolding update_file
update_file-read name value fs = elim (Bool-cases (text_eq (read_file name fs) value)) [
  | inl c ↦ rw c ((text_eq_iff (read_file name fs) value).0 c)
  | inr c ↦ rw c (
      read_lookup name (insert name value fs) value
        (lookup-insert name name value fs ∙ rw (eq_refl name) refl))
]

read_file-erase :
    (j k : String) (fs : Dict Text) → str_eq j k ≡ false → read_file k (erase j fs) ≡ read_file k fs
unfolding read_file
read_file-erase j k fs h = rw (read_file, lookup-erase j k fs, h) refl

erased : (path : String) (fs : Dict Text) → has path (erase path fs) ≡ false
erased path fs = rw (has, lookup-erase path path fs, eq_refl path) refl

module _ {R : Type 0} (C : Client R) where
  -- The registry took the token of the request.
  abbrev pub Accepted : String → Text → R → Type 0
  Accepted name token r =
      (result : Option Text) × (r₁ : R) × (C.add_token (email_of (stem name)) token r
        ≡ (ok result, r₁))
      × (accepted C token result ≡ true)

  -- A pass over one request to add leaves the directory as it is, or the registry accepted the
  -- token, the request is gone and the status of the instance is `TOKEN_ADDED`. The request and
  -- the status are two files.
  pub add_one_lem :
      (name : String) (c : ℕ) (t : Text) (fs : Dict Text) (r : R)
      → str_eq name (with_suffix (stem name) ".status") ≡ false
      → read_file name fs ≡ c ∷ t
      → let w = add_one C name (fs, r) in
        (w.0 ≡ fs)
        ⊎ (Accepted name (c ∷ t) r
            × (has name w.0 ≡ false)
            × (read_file (with_suffix (stem name) ".status") w.0 ≡ codes "TOKEN_ADDED"))
  unfolding add_one added
  add_one_lem name c t fs r ne h =
      rw (add_one, h) (answered (C.add_token (email_of (stem name)) (c ∷ t) r) refl)
    where
      files₁ : Dict Text
      files₁ = erase name (update_file (with_suffix (stem name) ".status") (codes "TOKEN_ADDED") fs)

      Done : Dict Text × R → Type 0
      Done w =
          (w.0 ≡ fs)
          ⊎ (Accepted name (c ∷ t) r
              × (has name w.0 ≡ false)
              × (read_file (with_suffix (stem name) ".status") w.0 ≡ codes "TOKEN_ADDED"))

      taken :
          (result : Option Text) (r₁ : R) (b : Bool)
          → C.add_token (email_of (stem name)) (c ∷ t) r ≡ (ok result, r₁)
          → accepted C (c ∷ t) result ≡ b
          → Done (if b then (files₁, r₁) else (fs, r₁))
      taken result r₁ true e f = inr (
        (result, r₁, e, f),
        erased name _,
        read_file-erase name (with_suffix (stem name) ".status") _ ne
            ∙ update_file-read (with_suffix (stem name) ".status") (codes "TOKEN_ADDED") fs,
      )
      taken result r₁ false e f = inl refl

      answered :
          (p : Outcome (Option Text) × R)
          → C.add_token (email_of (stem name)) (c ∷ t) r ≡ p
          → Done (elim p.0 [
            | raised _ ↦ (fs, p.1)
            | ok result ↦ if accepted C (c ∷ t) result then (files₁, p.1) else (fs, p.1)
          ])
      answered (raised e, r₁) q = inl refl
      answered (ok result, r₁) q = taken result r₁ (accepted C (c ∷ t) result) q refl
