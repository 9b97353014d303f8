-- ===== src/Theia/PathLaws.antt =====
-- Lemmas on `mirror_path` and `dst_path` of the export and the import of a Theia.
use mathlib.Core.List.{append_assoc, append-nil}
use slapos_abilian_edge.Theia.Paths.{FilePath, pardir, relpath, resolve}
use slapos_abilian_edge.Theia.World.{Tools}
use slapos_abilian_edge.Theia.Export.{Exporter}
use slapos_abilian_edge.Theia.Export
use slapos_abilian_edge.Theia.Import.{Importer}
use slapos_abilian_edge.Theia.Import
use slapos_abilian_edge.Base.{◌≡◌, refl, ◌∙◌, true, false, List, [], ◌∷◌, ◌++◌, All}
use slapos_abilian_edge.Base.Text.{Text, text_eq, text_eq_iff}

-- The components of a path below a directory do not lead up.
abbrev pub IsClean : List Text → Type 0
IsClean = All (λ c. text_eq c pardir ≡ false)

text_eq_refl : (s : Text) → text_eq s s ≡ true
text_eq_refl s = (text_eq_iff s s).1 refl

relpath-append : (root rel : FilePath) → relpath (root ++ rel) root ≡ rel
unfolding relpath
relpath-append [] [] = refl
relpath-append [] (c ∷ rel) = refl
relpath-append (r ∷ root) rel = rw (text_eq_refl r) (relpath-append root rel)

resolve-IsClean : (base rel : FilePath) → IsClean rel → resolve base rel ≡ base ++ rel
unfolding resolve
resolve-IsClean base [] h = rw append-nil
resolve-IsClean base (c ∷ rel) h =
    rw h.0 (resolve-IsClean (base ++ c ∷ []) rel h.1 ∙ append_assoc base (c ∷ []) rel)

-- A path below the root has its mirror at the same place below the backup, for the export and for
-- the import alike, and the import finds the way back from it.
pub mirror_path-dst_path :
    (T : Tools) (e : Exporter) (x : Importer) (rel : List Text)
    → e.root_dir ≡ x.root_dir
    → e.backup_dir ≡ x.backup_dir
    → IsClean rel
    → (Export.mirror_path T e (x.root_dir ++ rel) ≡ x.backup_dir ++ rel)
      × (Import.mirror_path T x (x.root_dir ++ rel) ≡ x.backup_dir ++ rel)
      × (Import.dst_path T x (x.backup_dir ++ rel) ≡ x.root_dir ++ rel)
unfolding Export.mirror_path Import.mirror_path Import.dst_path
mirror_path-dst_path T e x rel same_root same_backup h = (
  rw same_root (rw same_backup (rw relpath-append (resolve-IsClean x.backup_dir rel h))),
  rw relpath-append (resolve-IsClean x.backup_dir rel h),
  rw relpath-append (resolve-IsClean x.root_dir rel h),
)
