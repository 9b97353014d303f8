-- ===== src/HttpServer/Laws.antt =====
-- Lemmas on `do_POST` of slapos/recipe/simplehttpserver.
use slapos_abilian_edge.HttpServer.{
  Parts, abspath, relpath, starts_with_pardir, issubpathof, dirname, Effect, make_directories,
  replace, append, log_error, respond, Errors, Form, file_path, failed_makedirs, file_effect,
  failed_write, write_file, is_clear, do_post,
}
use mathlib.Core.List.{append-nil}
use slapos_abilian_edge.Base.{ℕ, String, ◌≡◌, refl, sym, ap, ◌∙◌, ◌⊎◌, inl, inr, Bool, true, false}
use slapos_abilian_edge.Base.{not, ◌||◌, Option, none, some, List, [], ◌∷◌, ◌++◌, str_eq, eq_iff}
use slapos_abilian_edge.Base.{◌==◌, if◌then◌else◌, Bool-cases, All, All-append}
use slapos_abilian_edge.Base.Py.{key_error, Outcome, ok, raised}
use slapos_abilian_edge.Base.Text.{Text}
use slapos_abilian_edge.Base.Str.{strip_prefix}

-- The path lies below another one, or is the same.
abbrev pub Below : Parts → Parts → Type 0
Below base path = (rest : Parts) × (path ≡ base ++ rest)

relpath-Below :
    (path base : Parts) → starts_with_pardir (relpath path base) ≡ false → Below base path
unfolding relpath strip_prefix
relpath-Below [] [] h = ([], refl)
relpath-Below [] (q ∷ qs) h = cc
relpath-Below (p ∷ ps) [] h = (p ∷ ps, refl)
relpath-Below (p ∷ ps) (q ∷ qs) h = go (Bool-cases (str_eq p q)) (relpath-Below ps qs)
  where
    go :
        (str_eq p q ≡ true) ⊎ (str_eq p q ≡ false)
        → (starts_with_pardir (relpath ps qs) ≡ false → Below qs ps)
        → Below (q ∷ qs) (p ∷ ps)
    go (inl e) rec =
        let (rest, r) = rec (sym (rw e refl) ∙ h) in let w : p ≡ q = (eq_iff p q).0 e in (rest, cc)
    go (inr e) rec = let k : true ≡ false = sym (rw e refl) ∙ h in cc

dirname-append :
    (base : Parts) (r : String) (rs : Parts) → dirname (base ++ (r ∷ rs)) ≡ base ++ dirname (r ∷ rs)
dirname-append [] r rs = refl
dirname-append (b ∷ []) r rs = refl
dirname-append (b ∷ c ∷ base) r rs = ap (λ x. b ∷ x) (dirname-append (c ∷ base) r rs)

-- An effect stays in a directory: a file that is written lies below it or is at its path, and so
-- does a directory that is made, unless it is the parent of the directory itself.
unfoldable pub Inside : Parts → Effect → Type 0
Inside base (make_directories d) = Below base d ⊎ (d ≡ dirname base)
Inside base (replace path content) = Below base path
Inside base (append path content) = Below base path
Inside base (log_error path) = Below base path
Inside base (respond status) = Unit {0}

dirname-Inside :
    (base path : Parts)
    → Below base path
    → Below base (dirname path) ⊎ (dirname path ≡ dirname base)
dirname-Inside base path ([], e) = inr (ap dirname e ∙ ap dirname (append-nil base))
dirname-Inside base path (r ∷ rs, e) =
    inl (dirname (r ∷ rs), ap dirname e ∙ dirname-append base r rs)

module _ (base_path : String) (E : Errors) where
  makedirs_logged :
      (e : ℕ) (base path : Parts) → Below base path → All (Inside base) (failed_makedirs e path)
  unfolding Inside
  makedirs_logged e base path b = go (e == 0 || e == 17)
    where
      go : (c : Bool) → All (Inside base) (if c then [] else log_error path ∷ [])
      go true = tt
      go false = (b, tt)

  write_logged :
      (e : ℕ) (base path : Parts) → Below base path → All (Inside base) (failed_write e path)
  unfolding Inside
  write_logged e base path b = go (e == 0)
    where
      go : (c : Bool) → All (Inside base) (if c then [] else log_error path ∷ [])
      go true = tt
      go false = (b, tt)

  file_effect-Inside :
      (clear : Bool) (base path : Parts) (content : Text)
      → Below base path
      → Inside base (file_effect clear path content)
  unfolding Inside
  file_effect-Inside true base path content b = b
  file_effect-Inside false base path content b = b

  write_file-Inside :
      (filename : String) (content : Text) (clear : Bool)
      → All (Inside (abspath base_path)) (write_file base_path E filename content clear)
  unfolding write_file issubpathof Inside
  write_file-Inside filename content clear =
      go (starts_with_pardir (relpath path (abspath base_path)))
        (relpath-Below path (abspath base_path))
    where
      path : Parts
      path = file_path base_path filename

      effects : List Effect
      effects =
          make_directories (dirname path)
          ∷ (failed_makedirs (E.makedirs (dirname path)) path
              ++ (file_effect clear path content
                  ∷ (failed_write (E.write path) path ++ (respond 200 ∷ []))))

      go :
          (b : Bool)
          → (b ≡ false → Below (abspath base_path) path)
          → All (Inside (abspath base_path)) (if not b then effects else respond 403 ∷ [])
      go true k = (tt, tt)
      go false k =
          let base = abspath base_path in
          let b = k refl in
          (
            dirname-Inside base path b,
            All-append (Inside base) (failed_makedirs (E.makedirs (dirname path)) path) _
                (makedirs_logged (E.makedirs (dirname path)) base path b)
                (
                  file_effect-Inside clear base path content b,
                  All-append (Inside base) (failed_write (E.write path) path) _
                      (write_logged (E.write path) base path b) (tt, tt),
                ),
          )

  -- What a request may do: nothing but an answer when the server is read-only, and nothing outside
  -- the directory of the server otherwise, whatever path it names.
  unfoldable pub Allowed : Bool → Outcome (List Effect) → Type 0
  Allowed restrict_write (raised e) = e ≡ key_error
  Allowed true (ok effects) = effects ≡ respond 403 ∷ []
  Allowed false (ok effects) = All (Inside (abspath base_path)) effects

  -- Whatever the form of a POST and the errors of the system: a read-only server answers 403 and
  -- does nothing; another one writes no file that is not below its directory.
  pub do_post-Allowed :
      (restrict_write : Bool) (form : Form)
      → Allowed restrict_write (do_post base_path E restrict_write form)
  unfolding do_post Allowed
  do_post-Allowed true form = refl
  do_post-Allowed false form = with_content form.content
    where
      with_path :
          (content : Text) (path : Option String)
          → Allowed false (elim path as (λ _. Outcome (List Effect)) [
            | none ↦ raised key_error
            | some path ↦ ok (write_file base_path E path content (is_clear form.clear))
          ])
      with_path content none = refl
      with_path content (some path) = write_file-Inside path content (is_clear form.clear)

      with_content :
          (content : Option Text)
          → Allowed false (elim content as (λ _. Outcome (List Effect)) [
            | none ↦ raised key_error
            | some content ↦ elim form.path as (λ _. Outcome (List Effect)) [
              | none ↦ raised key_error
              | some path ↦ ok (write_file base_path E path content (is_clear form.clear))
            ]
          ])
      with_content none = refl
      with_content (some content) = with_path content form.path
