-- ===== src/Publish.antt =====
-- slapos/recipe/publish.py: what a section publishes, and the file that tells that a publication
-- failed.
mod Tests
use slapos_abilian_edge.Base.{String, ◌≡◌, refl, inl, inr, true, false, Option, none, some, List}
use slapos_abilian_edge.Base.{[], ◌∷◌, str_eq, eq_refl, if◌then◌else◌, Bool-cases}
use slapos_abilian_edge.Base.Dict.{Dict, lookup, insert, erase, has, lookup-insert, lookup-erase}
use slapos_abilian_edge.Base.Py.{missing_option, missing_section, Outcome, ok, raised, bind, is_ok}
use slapos_abilian_edge.Base.Text.{Text}
use slapos_abilian_edge.Base.Str.{words, strip_prefix}

abbrev pub Options : Type 0
Options = Dict String

-- The names that a section publishes if it does not say: all but `recipe` and those with a dash.
unfoldable pub public_names : Options → List String
public_names [] = []
public_names ((k, v) ∷ section) =
    let rest = public_names section in
    if str_eq k "recipe"
    then rest
    else elim (strip_prefix "-" k) [ some _ ↦ rest | none ↦ k ∷ rest ]

unfoldable pub names_of : Options → List String
unfolding public_names
names_of section = elim (lookup "-publish" section) [
  | some names ↦ words names
  | none ↦ public_names section
]

-- `publish_dict[k] = section[k]` for each name
unfoldable pub publish_names : Options → List String → Dict String → Outcome (Dict String)
publish_names section [] publish_dict = ok publish_dict
publish_names section (k ∷ ks) publish_dict = elim (lookup k section) [
  | none ↦ raised missing_option
  | some v ↦ publish_names section ks (insert k v publish_dict)
]

-- The loop of `Recipe._install` over the sections that are extended.
unfoldable pub publish_sections : Dict Options → List String → Dict String → Outcome (Dict String)
unfolding publish_names names_of
publish_sections buildout [] publish_dict = ok publish_dict
publish_sections buildout (name ∷ names) publish_dict = elim (lookup name buildout) [
  | none ↦ raised missing_section
  | some section ↦
      bind (publish_names section (names_of section) publish_dict)
        λ d. publish_sections buildout names d
]

abbrev pub Files : Type 0
Files = Dict Text

-- `Failsafe._setConnectionDict`, from how the call of the Master ended: a failure is only noted.
unfoldable pub failsafe_set : Option String → Text → Outcome (Unit {0}) → Files → Files
failsafe_set none traceback result files = files
failsafe_set (some f) traceback (raised e) files = insert f traceback files
failsafe_set (some f) traceback (ok _) files = if has f files then erase f files else files

-- `Failsafe.update`, where `install` is the installation of the section
unfoldable pub failsafe_update : Option String → (Files → Files) → Files → Files
failsafe_update none install files = files
failsafe_update (some f) install files = if has f files then install files else files

-- `Failsafe.uninstall`
unfoldable pub failsafe_uninstall : Option String → Files → Files
failsafe_uninstall none files = files
failsafe_uninstall (some f) files = if has f files then erase f files else files

failed_has : (f : String) (t : Text) (files : Files) → has f (insert f t files) ≡ true
failed_has f t files = rw (has, lookup-insert f f t files, eq_refl f) refl

cleared :
    (f : String) (files : Files) → has f (if has f files then erase f files else files) ≡ false
cleared f files = elim (Bool-cases (has f files)) [
  | inl c ↦ rw (c, has, lookup-erase f f files, eq_refl f) refl
  | inr c ↦ rw c c
]

-- With an error status file, the next update installs again exactly when the publication failed.
pub failsafe_update-retries :
    (f : String) (traceback : Text) (result : Outcome (Unit {0})) (install : Files → Files)
    (files : Files)
    → let after = failsafe_set (some f) traceback result files in
      failsafe_update (some f) install after ≡ (if is_ok result then after else install after)
unfolding failsafe_update failsafe_set
failsafe_update-retries f traceback (raised e) install files =
    rw (failed_has f traceback files) refl
failsafe_update-retries f traceback (ok tt) install files = rw (cleared f files) refl
