-- ===== src/Theia/Safety.antt =====
-- The checks that come first in `restore`, software/theia/theia_import.py.
use mathlib.Core.List.{append_assoc, append-nil}
use mathlib.Core.Path.{subst}
use slapos_abilian_edge.Theia.Paths.{
  FilePath, is_below, add_suffix, path_eq, path_eq_iff, basename, path_text,
}
use slapos_abilian_edge.Theia.World.{
  World, Io, Tools, Nodes, Node, Cmd, diff, node_at, put_node, file, dir,
}
use slapos_abilian_edge.Theia.World.{
  read, write, run, log_at, node_at-put_node, log, exists, set_nodes,
}
use slapos_abilian_edge.Theia.Export.{lines_text}
use slapos_abilian_edge.Theia.Import.{Importer, sign, verify, compare_with, mismatch, verify_found}
use slapos_abilian_edge.Theia.Import.{find_signature_file, verify_partitions, check_backup, restore}
use slapos_abilian_edge.Base.{◌≡◌, refl, sym, ap, ◌∙◌, inl, inr, Bool, true, false, Option, none}
use slapos_abilian_edge.Base.{some, List, [], ◌∷◌, ◌++◌, if◌then◌else◌, Bool-cases, All, All-append}
use slapos_abilian_edge.Base.Py.{Exc, called_process_error, Outcome, ok, raised, pure, run_on}
use slapos_abilian_edge.Base.Py.{◌>>=◌, ◌>>◌, catching, try_except}
use slapos_abilian_edge.Base.Text.{Text, codes, text_eq_iff}

abbrev pub IsDiff : Cmd → Type 0
IsDiff (diff _ _) = Unit
IsDiff _ = ⊥

-- From `w` to `w'` only `diff` was run, and nothing outside `backup` changed.
pub record Quiet (backup : FilePath) (w w' : World) : Type 0 where
  pub ran : (ds : List Cmd) × (w'.trace ≡ w.trace ++ ds) × All IsDiff ds
  pub kept : (p : FilePath) → is_below backup p ≡ false → node_at p w'.nodes ≡ node_at p w.nodes

Quiet-refl : (backup : FilePath) (w : World) → Quiet backup w w
Quiet-refl backup w = record { ran = ([], sym (append-nil w.trace), tt); kept = λ p h. refl }

Quiet-trans :
    {backup : FilePath} {u v w : World} → Quiet backup u v → Quiet backup v w → Quiet backup u w
Quiet-trans {u} a b =
    let (ds, e, d) = a.ran in
    let (es, f, g) = b.ran in
    record {
      ran = (
        ds ++ es,
        f ∙ ap (λ t. t ++ es) e ∙ append_assoc u.trace ds es,
        All-append IsDiff ds es d g,
      );
      kept = λ p h. b.kept p h ∙ a.kept p h;
    }

-- Code that keeps to this whether it returns or raises.
abbrev Quietly : {A : Type 0} → FilePath → Io A → Type 0
Quietly backup m = (w : World) → Quiet backup w (m w).1

module _ (backup : FilePath) {A B : Type 0} where
  run_on-Quiet :
      (w : World) (r : Outcome A) (s : World) (f : A → Io B)
      → Quiet backup w s
      → ((a : A) → r ≡ ok a → Quietly backup (f a))
      → Quiet backup w (run_on (r, s) f).1
  run_on-Quiet w (ok a) s f h k = Quiet-trans h (k a refl s)
  run_on-Quiet w (raised e) s f h k = h

  bind-Quietly :
      (m : Io A) (f : A → Io B)
      → Quietly backup m
      → ((a : A) → Quietly backup (f a))
      → Quietly backup (m >>= f)
  bind-Quietly m f hm hf w = run_on-Quiet w (m w).0 (m w).1 f (hm w) (λ a _. hf a)

module _ (backup : FilePath) {A : Type 0} where
  catching-Quiet :
      (w : World) (r : Outcome A) (s : World) (h : Exc → Io A)
      → Quiet backup w s
      → ((e : Exc) → Quietly backup (h e))
      → Quiet backup w (catching (r, s) h).1
  catching-Quiet w (ok a) s h q k = q
  catching-Quiet w (raised e) s h q k = Quiet-trans q (k e s)

-- `diff` changes no file.
abbrev pub DiffReads : Tools → Type 0
DiffReads T = (a b : FilePath) (fs : Nodes) → (T.exec (diff a b) fs).1 ≡ fs

is_below-ne :
    (backup p q : FilePath)
    → is_below backup p ≡ true
    → is_below backup q ≡ false
    → path_eq p q ≡ false
is_below-ne backup p q h k = elim (Bool-cases (path_eq p q)) [
  | inl e ↦ cc (h, k, (path_eq_iff p q).0 e)
  | inr n ↦ n
]

is_below-append : (base rest : FilePath) → is_below base (base ++ rest) ≡ true
unfolding is_below
is_below-append [] rest = refl
is_below-append (c ∷ base) rest = rw ((text_eq_iff c c).1 refl) (is_below-append base rest)

add_suffix-append :
    (base : FilePath) (c s : Text) → add_suffix (base ++ c ∷ []) s ≡ base ++ (c ++ s) ∷ []
unfolding add_suffix
add_suffix-append [] c s = refl
add_suffix-append (b ∷ []) c s = refl
add_suffix-append (b ∷ d ∷ base) c s = ap (λ p. b ∷ p) (add_suffix-append (d ∷ base) c s)

module _ (T : Tools) (x : Importer) (reads : DiffReads T) where
  log_at-Quietly : (msg : Text) → Quietly x.backup_dir (log_at T msg)
  unfolding log_at log
  log_at-Quietly msg w = record { ran = ([], sym (append-nil w.trace), tt); kept = λ p h. refl }

  write-Quietly :
      (p : FilePath) (t : Text) → is_below x.backup_dir p ≡ true → Quietly x.backup_dir (write p t)
  unfolding write
  write-Quietly p t below w = go (node_at p w.nodes) refl
    where
      written : Quiet x.backup_dir w (set_nodes (put_node p (file t) w.nodes) w)
      written = record {
        ran = ([], sym (append-nil w.trace), tt);
        kept = λ q h. rw node_at-put_node (rw (is_below-ne x.backup_dir p q below h));
      }

      go : (o : Option Node) → node_at p w.nodes ≡ o → Quiet x.backup_dir w (write p t w).1
      go none e = rw (e, write) written
      go (some dir) e = rw (e, write) (Quiet-refl x.backup_dir w)
      go (some (file s)) e = rw (e, write) written

  diff-Quietly : (a b : FilePath) → Quietly x.backup_dir (run T (diff a b))
  unfolding run
  diff-Quietly a b w = record {
    ran = (diff a b ∷ [], refl, (tt, tt));
    kept = λ p h. ap (node_at p) (reads a b w.nodes);
  }

  sign-Quietly : (sf root : FilePath) → Quietly x.backup_dir (sign T sf root)
  unfolding sign read
  sign-Quietly sf root w = go (node_at sf w.nodes) refl
    where
      go : (o : Option Node) → node_at sf w.nodes ≡ o → Quiet x.backup_dir w (sign T sf root w).1
      go none e = rw (e, sign, read) (Quiet-refl x.backup_dir w)
      go (some dir) e = rw (e, sign, read) (Quiet-refl x.backup_dir w)
      go (some (file s)) e = rw (e, sign, read) (Quiet-refl x.backup_dir w)

  mismatch-Quietly : (e : Exc) → Quietly x.backup_dir (mismatch T x e)
  unfolding mismatch
  mismatch-Quietly (called_process_error n out) w = Quiet-refl x.backup_dir w
  mismatch-Quietly e w = Quiet-refl x.backup_dir w

  abbrev proof : FilePath → FilePath
  proof sf = add_suffix sf (codes ".proof")

  compare_with-Quietly :
      (sf : FilePath) (sigs : List Text)
      → is_below x.backup_dir (proof sf) ≡ true
      → Quietly x.backup_dir (compare_with T x sf sigs)
  unfolding compare_with
  compare_with-Quietly sf sigs below =
      bind-Quietly x.backup_dir (write (proof sf) (lines_text sigs))
        (λ _. try_except (run T (diff sf (proof sf))) (mismatch T x) >> pure tt)
        (write-Quietly (proof sf) (lines_text sigs) below)
        λ _.
          bind-Quietly x.backup_dir (try_except (run T (diff sf (proof sf))) (mismatch T x))
            (λ _. pure tt)
            (λ w.
              catching-Quiet x.backup_dir w (run T (diff sf (proof sf)) w).0
                (run T (diff sf (proof sf)) w).1 (mismatch T x) (diff-Quietly sf (proof sf) w)
                mismatch-Quietly)
            (λ _ w. Quiet-refl x.backup_dir w)

  verify-Quietly :
      (sf root : FilePath)
      → is_below x.backup_dir (proof sf) ≡ true
      → Quietly x.backup_dir (verify T x sf root false)
  unfolding verify
  verify-Quietly sf root below =
      bind-Quietly x.backup_dir (write (proof sf) [])
        (λ _. sign T sf root >>= λ sigs. compare_with T x sf sigs)
        (write-Quietly (proof sf) [] below)
        λ _.
          bind-Quietly x.backup_dir (sign T sf root) (λ sigs. compare_with T x sf sigs)
            (sign-Quietly sf root) (λ sigs. compare_with-Quietly sf sigs below)

  signature_below :
      (m : FilePath)
      → is_below x.backup_dir (
          add_suffix
            (x.backup_dir ++ (basename m ++ codes ".backup.signature") ∷ [])
            (codes ".proof"))
        ≡ true
  signature_below m = rw add_suffix-append (is_below-append x.backup_dir _)

  abbrev main_signature : FilePath
  main_signature = x.backup_dir ++ codes "backup.signature" ∷ []

  abbrev signature_of : FilePath → FilePath
  signature_of m = x.backup_dir ++ (basename m ++ codes ".backup.signature") ∷ []

  custom_below :
      (m : FilePath)
      → is_below x.backup_dir (proof (add_suffix (signature_of m) (codes ".custom"))) ≡ true
  custom_below m = rw add_suffix-append (rw add_suffix-append (is_below-append x.backup_dir _))

  verify_found-Quietly :
      (m : FilePath) (custom : Bool) (sf : FilePath)
      → is_below x.backup_dir (proof sf) ≡ true
      → Quietly x.backup_dir (verify_found T x m (sf, custom))
  unfolding verify_found
  verify_found-Quietly m true sf below = λ w. Quiet-refl x.backup_dir w
  verify_found-Quietly m false sf below =
      bind-Quietly x.backup_dir (log_at T (codes "Verify backup signature for " ++ path_text m))
        (λ _. verify T x sf m false) (log_at-Quietly _) (λ _. verify-Quietly sf m below)

  -- The signature file of a partition is looked up without a change, and lies in the backup.
  find_then-Quietly :
      (m : FilePath) {B : Type 0} (f : FilePath × Bool → Io B)
      → ((sf : FilePath) (custom : Bool)
          → is_below x.backup_dir (proof sf) ≡ true
          → Quietly x.backup_dir (f (sf, custom)))
      → Quietly x.backup_dir (find_signature_file T x m >>= f)
  unfolding find_signature_file
  find_then-Quietly m f hf w = elim (Bool-cases (exists (signature_of m) w)) [
    | inl e ↦ rw e (hf (signature_of m) false (signature_below m) w)
    | inr n ↦ rw n (elim (Bool-cases (exists (add_suffix (signature_of m) (codes ".custom")) w)) [
      | inl e ↦ rw e (hf (add_suffix (signature_of m) (codes ".custom")) true (custom_below m) w)
      | inr n' ↦ rw n' (Quiet-refl x.backup_dir w)
    ])
  ]

  verify_partitions-Quietly : (ms : List FilePath) → Quietly x.backup_dir (verify_partitions T x ms)
  unfolding verify_partitions
  verify_partitions-Quietly [] = λ w. Quiet-refl x.backup_dir w
  verify_partitions-Quietly (m ∷ ms) = find_then-Quietly m _ λ sf custom below.
      bind-Quietly x.backup_dir (verify_found T x m (sf, custom))
        (λ _. verify_partitions T x ms >>= λ more. pure (if custom then (sf, m) ∷ more else more))
        (verify_found-Quietly m custom sf below)
        λ _.
          bind-Quietly x.backup_dir (verify_partitions T x ms)
            (λ more. pure (if custom then (sf, m) ∷ more else more)) (verify_partitions-Quietly ms)
            (λ _ w. Quiet-refl x.backup_dir w)

  check_backup-Quietly : Quietly x.backup_dir (check_backup T x)
  unfolding check_backup
  check_backup-Quietly =
      bind-Quietly x.backup_dir (log_at T (codes "Verify main backup signature"))
        (λ _.
          verify T x main_signature x.backup_dir false
          >> verify_partitions T x x.mirror_partition_dirs)
        (log_at-Quietly _)
        λ _.
          bind-Quietly x.backup_dir (verify T x main_signature x.backup_dir false)
            (λ _. verify_partitions T x x.mirror_partition_dirs)
            (verify-Quietly main_signature x.backup_dir
              (rw add_suffix-append (is_below-append x.backup_dir _)))
            (λ _. verify_partitions-Quietly x.mirror_partition_dirs)

  -- When `check_backup`, the checks of the signatures without a script that come before the
  -- restoration, raises an exception, `restore` raises the same, and it has run nothing but `diff`
  -- and changed nothing outside the backup directory; if `diff` changes no file.
  pub restore_refused :
      (w w' : World) (e : Exc)
      → check_backup T x w ≡ (raised e, w')
      → (restore T x w ≡ (raised e, w')) × Quiet x.backup_dir w w'
  unfolding restore
  restore_refused w w' e h = (
    rw h,
    subst (λ (p : Outcome (List (FilePath × FilePath)) × World). Quiet x.backup_dir w p.1) h
        (check_backup-Quietly w),
  )
