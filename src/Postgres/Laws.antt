-- ===== src/Postgres/Laws.antt =====
-- Lemmas on the steps of slapos/recipe/postgres.py.
use slapos_abilian_edge.Postgres.{
  Disk, Options, System, below, drop_tree, removed_after, create_all, install,
}
use Prim.Native.Char.{code}
use slapos_abilian_edge.Base.{String, ◌≡◌, refl, ◌⊎◌, inl, inr, Bool, true, false, some, List, []}
use slapos_abilian_edge.Base.{◌∷◌, str_eq, eq_iff, if◌then◌else◌, ==_iff, Bool-cases}
use slapos_abilian_edge.Base.Dict.{lookup, has}
use slapos_abilian_edge.Base.Py.{Exc, Outcome, ok, raised, is_ok}
use slapos_abilian_edge.Base.Str.{strip_prefix}

strip_prefix_self : (s : String) → strip_prefix s s ≡ some ""
unfolding strip_prefix
strip_prefix_self String.[] = refl
strip_prefix_self (String.◌∷◌ c s) =
    rw ((==_iff (code c) (code c)).1 refl, strip_prefix_self s) refl

has-drop_tree : (dir : String) (disk : Disk) → has dir (drop_tree dir disk) ≡ false
unfolding drop_tree lookup
has-drop_tree dir [] = refl
has-drop_tree dir ((path, content) ∷ disk) =
    go (Bool-cases (str_eq path dir)) (has-drop_tree dir disk)
  where
    kept :
        (b : Bool)
        → has dir (drop_tree dir disk) ≡ false
        → str_eq path dir ≡ false
        → has dir (if b then drop_tree dir disk else (path, content) ∷ drop_tree dir disk) ≡ false
    kept true rec e = rec
    kept false rec e = rw (has, e) rec

    go :
        (str_eq path dir ≡ true) ⊎ (str_eq path dir ≡ false)
        → has dir (drop_tree dir disk) ≡ false
        → has dir (drop_tree dir ((path, content) ∷ disk)) ≡ false
    go (inl e) rec =
        let q : path ≡ dir = (eq_iff path dir).0 e in
        let k : below (strip_prefix dir path) ≡ true = rw q (rw (strip_prefix_self dir) refl) in
        rw k rec
    go (inr e) rec = kept (below (strip_prefix dir path)) rec e

-- When the installation of a new cluster raises an exception, whichever step it is, the directory
-- of the cluster is not there after it, so that the next run makes the cluster anew.
pub install-not_half :
    (Y : System) (o : Options) (disk : Disk)
    → has o.pgdata disk ≡ false
    → is_ok (install Y o disk).0 ≡ false
    → has o.pgdata (install Y o disk).1 ≡ false
unfolding install
install-not_half Y o disk h = rw h (removed (create_all Y o disk))
  where
    tree :
        (x : Exc) (d : Disk)
        → (has o.pgdata d ≡ true) ⊎ (has o.pgdata d ≡ false)
        → has o.pgdata (removed_after Y o (raised x, d)).1 ≡ false
    tree x d (inl k) = rw k (has-drop_tree o.pgdata d)
    tree x d (inr k) = rw k k

    removed :
        (q : Outcome (List String) × Disk)
        → is_ok (removed_after Y o q).0 ≡ false
        → has o.pgdata (removed_after Y o q).1 ≡ false
    removed (ok paths, d) e = cc
    removed (raised x, d) e = tree x d (Bool-cases (has o.pgdata d))
