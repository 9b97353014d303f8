-- ===== src/Theia/Signatures.antt =====
-- The check of a signature file without a script, software/theia/theia_import.py.
use slapos_abilian_edge.Theia.World.{Cmd}
use slapos_abilian_edge.Theia.Paths.{FilePath, join_text, add_suffix, path_eq, path_eq_iff}
use slapos_abilian_edge.Theia.World.{World, Tools, Nodes, node_at, file, dir, read, write, Node}
use slapos_abilian_edge.Theia.World.{node_at-put_node, put_node, set_nodes, diff, run}
use slapos_abilian_edge.Theia.Export.{lines_text}
use slapos_abilian_edge.Theia.Import.{
  Importer, file_lines, universal_newlines, lines_of, split_words, sign_words, sign_line, sign,
  verify, compare_with, mismatch,
}
use slapos_abilian_edge.Base.{ℕ, ◌≡◌, refl, sym, ap, ◌∙◌, ◌≢◌, ◌⊎◌, inl, inr, Bool, true, false}
use slapos_abilian_edge.Base.{not, ◌||◌, Option, none, some, List, [], ◌∷◌, ◌++◌, map, arith, ◌==◌}
use slapos_abilian_edge.Base.{==_iff, Bool-cases, All, All-append}
use slapos_abilian_edge.Base.Py.{Exc, os_error, called_process_error, Outcome, ok, raised, pure}
use slapos_abilian_edge.Base.Py.{run_on, ◌>>◌, try_except}
use slapos_abilian_edge.Base.Text.{Text, codes, is_white, lstrip, rstrip, strip}
use slapos_abilian_edge.Base.Str.{lines}

-- `s` has characters and ends with one that is not white space.
abbrev pub ends_black : Text → Bool
ends_black [] = false
ends_black (c ∷ []) = not (is_white c)
ends_black (c ∷ d ∷ s) = ends_black (d ∷ s)

abbrev pub starts_black : Text → Bool
starts_black [] = false
starts_black (c ∷ s) = not (is_white c)

-- A relative path that a line of a signature file can hold: no line break in it, no white space
-- at its ends.
pub record IsLinePath (rel : Text) : Type 0 where
  pub head : starts_black rel ≡ true
  pub end : ends_black rel ≡ true
  pub one_line : All (λ c. (c == 10 || c == 13) ≡ false) rel

-- A digest has characters, and no white space in it.
pub record IsDigest (s : Text) : Type 0 where
  pub head : starts_black s ≡ true
  pub black : All (λ c. is_white c ≡ false) s

not-eq-true : (b : Bool) → not b ≡ true → b ≡ false
not-eq-true true h = cc
not-eq-true false h = refl

rstrip_newline : (s : Text) → ends_black s ≡ true → rstrip (s ++ 10 ∷ []) ≡ s
unfolding rstrip
rstrip_newline [] h = cc
rstrip_newline (c ∷ []) h = let n : is_white c ≡ false = not-eq-true (is_white c) h in rw n refl
rstrip_newline (c ∷ d ∷ s) h = rw (rstrip_newline (d ∷ s) h, rstrip)

lstrip_black : (s t : Text) → starts_black s ≡ true → lstrip (s ++ t) ≡ s ++ t
unfolding lstrip
lstrip_black [] t h = cc
lstrip_black (c ∷ s) t h = rw (not-eq-true (is_white c) h)

strip_newline : (s : Text) → starts_black s ≡ true → ends_black s ≡ true → strip (s ++ 10 ∷ []) ≡ s
unfolding strip
strip_newline s h e = rw (lstrip_black s (10 ∷ []) h) (rstrip_newline s e)

ends_black-append : (s t : Text) → ends_black t ≡ true → ends_black (s ++ t) ≡ true
ends_black-append [] t h = h
ends_black-append (c ∷ []) [] h = cc
ends_black-append (c ∷ []) (d ∷ t) h = h
ends_black-append (c ∷ d ∷ s) t h = ends_black-append (d ∷ s) t h

split_words_line :
    (s rel : Text)
    → All (λ c. is_white c ≡ false) s
    → starts_black rel ≡ true
    → split_words (s ++ b' ' ∷ rel) ≡ some (s, rel)
unfolding split_words lstrip
split_words_line [] [] w h = cc
split_words_line [] (c ∷ rel) w h = rw (not-eq-true (is_white c) h)
split_words_line (c ∷ s) rel w h = rw w.0 (rw (split_words_line s rel w.1 h, split_words))

-- No line breaks.
abbrev OneLine : Text → Type 0
OneLine = All (λ c. (c == 10 || c == 13) ≡ false)

universal_newlines-line :
    (s rest : Text)
    → OneLine s
    → universal_newlines (s ++ 10 ∷ rest) ≡ s ++ 10 ∷ universal_newlines rest
unfolding universal_newlines
universal_newlines-line [] rest h = refl
universal_newlines-line (c ∷ s) rest h =
    let n : (c == 13) ≡ false = ground (arith, h.0) in
    rw n (ap (λ t. c ∷ t) (universal_newlines-line s rest h.1))

lines_of-line :
    (s rest : Text) → OneLine s → lines_of (s ++ 10 ∷ rest) ≡ (s ++ 10 ∷ []) ∷ lines_of rest
unfolding lines_of
lines_of-line [] rest h = refl
lines_of-line (c ∷ s) rest h =
    let n : (c == 10) ≡ false = ground (arith, h.0) in rw n (rw (lines_of-line s rest h.1))

file_lines-line :
    (s rest : Text) → OneLine s → file_lines (s ++ 10 ∷ rest) ≡ (s ++ 10 ∷ []) ∷ file_lines rest
unfolding file_lines
file_lines-line s rest h =
    rw (universal_newlines-line s rest h) (lines_of-line s (universal_newlines rest) h)

starts_black-append : (s t : Text) → starts_black s ≡ true → starts_black (s ++ t) ≡ true
starts_black-append [] t h = cc
starts_black-append (c ∷ s) t h = h

ends_black-cons : (c : ℕ) (t : Text) → ends_black t ≡ true → ends_black (c ∷ t) ≡ true
ends_black-cons c [] h = cc
ends_black-cons c (d ∷ t) h = h

white_cases : (c : ℕ) → ((c == 10 || c == 13) ≡ false) ⊎ (is_white c ≡ true)
unfolding is_white
white_cases c = elim (Bool-cases (c == 10)) [
  | inl e ↦ inr (rw ((==_iff c 10).0 e) refl)
  | inr n ↦ elim (Bool-cases (c == 13)) [
    | inl e ↦ inr (rw ((==_iff c 13).0 e) refl)
    | inr m ↦ inl (rw n m)
  ]
]

black-OneLine : (s : Text) → All (λ c. is_white c ≡ false) s → OneLine s
black-OneLine [] h = tt
black-OneLine (c ∷ s) h = elim (white_cases c) [
  | inl n ↦ (n, black-OneLine s h.1)
  | inr e ↦ cc (e, h.0)
]

-- A file of the mirror: its path as the signature file has it, and its content.
abbrev pub Entry : Type 0
Entry = Text × Text

module _ (T : Tools) where
  abbrev pub entry_line : Entry → Text
  entry_line (rel, text) = T.sha256 text ++ b' ' ∷ rel

  -- What makes an entry a line of its own that the import can read.
  abbrev pub IsListed : FilePath → Nodes → Entry → Type 0
  IsListed root fs (rel, text) =
      IsLinePath rel
      × IsDigest (T.sha256 text)
      × (node_at (join_text root rel) fs ≡ some (file text))

  sign_line-entry_line :
      (root : FilePath) (w : World) (e : Entry)
      → IsListed root w.nodes e
      → sign_line T root w (entry_line e ++ 10 ∷ []) ≡ entry_line e
  unfolding sign_line sign_words
  sign_line-entry_line root w (rel, text) (line, digest, there) =
      rw
        (strip_newline (T.sha256 text ++ b' ' ∷ rel)
          (starts_black-append (T.sha256 text) (b' ' ∷ rel) digest.head)
          (ends_black-append (T.sha256 text) (b' ' ∷ rel) (ends_black-cons b' ' rel line.end)))
        (rw (split_words_line (T.sha256 text) rel digest.black line.head, sign_words)
          (rw (there, sign_words)))

  file_lines-entries :
      (root : FilePath) (fs : Nodes) (es : List Entry)
      → ((s : Text) → IsDigest (T.sha256 s))
      → All (IsListed root fs) es
      → file_lines (lines_text (map entry_line es)) ≡ map (λ e. entry_line e ++ 10 ∷ []) es
  unfolding file_lines
  file_lines-entries root fs [] d h = refl
  file_lines-entries root fs (e ∷ es) d h =
      file_lines-line (entry_line e) (lines_text (map entry_line es)) (
        All-append (λ c. (c == 10 || c == 13) ≡ false) (T.sha256 e.1) (b' ' ∷ e.0)
          (black-OneLine (T.sha256 e.1) (d e.1).black) (refl, h.0.0.one_line))
      ∙ ap (λ ls. (entry_line e ++ 10 ∷ []) ∷ ls) (file_lines-entries root fs es d h.1)

  sign_lines-entries :
      (root : FilePath) (w : World) (es : List Entry)
      → All (IsListed root w.nodes) es
      → map (sign_line T root w) (map (λ e. entry_line e ++ 10 ∷ []) es) ≡ map entry_line es
  sign_lines-entries root w [] h = refl
  sign_lines-entries root w (e ∷ es) h =
      rw (sign_line-entry_line root w e h.0)
        (ap (λ ls. entry_line e ∷ ls) (sign_lines-entries root w es h.1))

  sign-entries :
      (root signaturefile : FilePath) (w : World) (es : List Entry)
      → ((s : Text) → IsDigest (T.sha256 s))
      → All (IsListed root w.nodes) es
      → node_at signaturefile w.nodes ≡ some (file (lines_text (map entry_line es)))
      → sign T signaturefile root w ≡ (ok (map entry_line es), w)
  unfolding sign read
  sign-entries root signaturefile w es d h there =
      rw (there, read)
        (rw (file_lines-entries root w.nodes es d h) (rw (sign_lines-entries root w es h)))

-- What is not a directory can be written.
abbrev pub IsWritable : FilePath → World → Type 0
IsWritable p w = node_at p w.nodes ≢ some dir

pub write_lem :
    (p : FilePath) (t : Text) (w : World)
    → IsWritable p w
    → write p t w ≡ (ok tt, set_nodes (put_node p (file t) w.nodes) w)
unfolding write
write_lem p t w h = go (node_at p w.nodes) refl
  where
    go :
        (o : Option Node)
        → node_at p w.nodes ≡ o
        → write p t w ≡ (ok tt, set_nodes (put_node p (file t) w.nodes) w)
    go none e = rw (e, write)
    go (some dir) e = absurd (h e)
    go (some (file s)) e = rw (e, write)

path_eq_refl : (p : FilePath) → path_eq p p ≡ true
path_eq_refl p = (path_eq_iff p p).1 refl

pub node_at-put_node_self :
    (p : FilePath) (n : Node) (fs : Nodes) → node_at p (put_node p n fs) ≡ some n
node_at-put_node_self p n fs = rw node_at-put_node (rw (path_eq_refl p))

pub node_at-put_node_ne :
    (p q : FilePath) (n : Node) (fs : Nodes)
    → path_eq p q ≡ false
    → node_at q (put_node p n fs) ≡ node_at q fs
node_at-put_node_ne p q n fs h = rw node_at-put_node (rw h)

-- `diff` exits with 0 when the two files have the same content, and changes nothing.
abbrev pub DiffAccepts : Tools → Type 0
DiffAccepts T =
    (a b : FilePath) (fs : Nodes) (t : Text)
    → node_at a fs ≡ some (file t)
    → node_at b fs ≡ some (file t)
    → (out : Text) × (T.exec (diff a b) fs ≡ (ok out, fs))

-- `diff` exits with 0 only when the two files have the same content.
abbrev pub DiffRejects : Tools → Type 0
DiffRejects T =
    (a b : FilePath) (fs fs' : Nodes) (out : Text)
    → T.exec (diff a b) fs ≡ (ok out, fs')
    → node_at a fs ≡ node_at b fs

file_injective : {s t : Text} → some (file s) ≡ some (file t) → s ≡ t
file_injective e = cc

mismatch_raises :
    (T : Tools) (x : Importer) (e : Exc) (w : World)
    → (f : Exc) × (mismatch T x e w ≡ (raised f, w))
unfolding mismatch
mismatch_raises T x (called_process_error n output) w = (_, refl)
mismatch_raises T x e w = (_, refl)

fails_of_diff :
    (T : Tools) (x : Importer) (cmd : Cmd) (exc : Exc) (w w' : World) (fs' : Nodes)
    → T.exec cmd w.nodes ≡ (raised exc, fs')
    → (try_except (run T cmd) (mismatch T x) >> pure tt) w ≢ (ok tt, w')
unfolding run
fails_of_diff T x cmd exc w w' fs' h k =
    let w₂ : World = record w { nodes = fs'; trace = w.trace ++ cmd ∷ [] } in
    let (f, m) = mismatch_raises T x exc w₂ in cc (rw m at (rw h at k))

module _ (T : Tools) (root sf : FilePath) (w : World) where
  sign_text :
      (text : Text)
      → node_at sf w.nodes ≡ some (file text)
      → sign T sf root w ≡ (ok (map (sign_line T root w) (file_lines text)), w)
  unfolding sign read
  sign_text text h = rw (h, read)

  sign_raises :
      (o : Option Node)
      → ((text : Text) → o ≢ some (file text))
      → node_at sf w.nodes ≡ o
      → (f : Exc) × (sign T sf root w ≡ (raised f, w))
  unfolding sign read
  sign_raises none q h = (os_error 2, rw (h, read))
  sign_raises (some dir) q h = (os_error 21, rw (h, read))
  sign_raises (some (file text)) q h = absurd (q text refl)

module _ (T : Tools) (x : Importer) (sf root : FilePath) (w : World) where
  abbrev proof : FilePath
  proof = add_suffix sf (codes ".proof")

  -- The world with an empty proof file, in which the signatures are computed.
  abbrev pub emptied : World
  emptied = set_nodes (put_node proof (file []) w.nodes) w

  -- The files that are compared.
  abbrev compared : Text → Nodes
  compared lines = put_node proof (file lines) emptied.nodes

  emptied-IsWritable : IsWritable proof emptied
  emptied-IsWritable h = cc (node_at-put_node_self proof (file []) w.nodes, h)

  IsListed-emptied :
      (es : List Entry)
      → All (λ e. path_eq proof (join_text root e.0) ≡ false) es
      → All (IsListed T root w.nodes) es
      → All (IsListed T root emptied.nodes) es
  IsListed-emptied [] h l = tt
  IsListed-emptied (e ∷ es) h l = (
    (l.0.0, l.0.1, node_at-put_node_ne proof (join_text root e.0) (file []) w.nodes h.0 ∙ l.0.2),
    IsListed-emptied es h.1 l.1,
  )

  -- A signature file is accepted when it lists files of the mirror with their digests, one on a
  -- line: if the names have no line break and no white space at their ends, digests have
  -- characters and no white space, the proof file can be written and is neither the signature file
  -- nor a file of the list, and diff exits with 0 on equal files.
  pub verify-entries :
      (es : List Entry)
      → DiffAccepts T
      → ((s : Text) → IsDigest (T.sha256 s))
      → IsWritable proof w
      → path_eq proof sf ≡ false
      → node_at sf w.nodes ≡ some (file (lines_text (map (entry_line T) es)))
      → All (IsListed T root w.nodes) es
      → All (λ e. path_eq proof (join_text root e.0) ≡ false) es
      → (verify T x sf root false w).0 ≡ ok tt
  unfolding verify
  verify-entries es accepts d writable other there listed apart =
      rw (write_lem proof [] w writable) (
        rw
          (sign-entries T root sf emptied es d (IsListed-emptied es apart listed)
            (node_at-put_node_ne proof sf (file []) w.nodes other ∙ there))
          (rw (write_lem proof (lines_text (map (entry_line T) es)) emptied emptied-IsWritable) (
            let lines = lines_text (map (entry_line T) es) in
            let (out, e) =
              accepts sf proof (compared lines) lines
                (node_at-put_node_ne proof sf (file lines) emptied.nodes other
                  ∙ node_at-put_node_ne proof sf (file []) w.nodes other
                  ∙ there)
                (node_at-put_node_self proof (file lines) emptied.nodes) in
            unfold run in rw (e, run))))

  compare_with_sound :
      (sigs : List Text) (w₁ w' : World)
      → DiffRejects T
      → IsWritable proof w₁
      → path_eq proof sf ≡ false
      → compare_with T x sf sigs w₁ ≡ (ok tt, w')
      → node_at sf w₁.nodes ≡ some (file (lines_text sigs))
  unfolding compare_with
  compare_with_sound sigs w₁ w' rejects writable other e =
      go (T.exec (diff sf proof) fs) refl (rw (write_lem proof (lines_text sigs) w₁ writable) at e)
    where
      fs : Nodes
      fs = put_node proof (file (lines_text sigs)) w₁.nodes

      go :
          (r : Outcome Text × Nodes)
          → T.exec (diff sf proof) fs ≡ r
          → (try_except (run T (diff sf proof)) (mismatch T x) >> pure tt) (set_nodes fs w₁)
            ≡ (ok tt, w')
          → node_at sf w₁.nodes ≡ some (file (lines_text sigs))
      go (ok out, fs') h k =
          sym (node_at-put_node_ne proof sf (file (lines_text sigs)) w₁.nodes other)
          ∙ rejects sf proof fs fs' out h
          ∙ node_at-put_node_self proof (file (lines_text sigs)) w₁.nodes
      go (raised exc, fs') h k =
          absurd (fails_of_diff T x (diff sf proof) exc (set_nodes fs w₁) w' fs' h k)

  -- When the check of a signature file without a script returns, the signature file is there, and
  -- its text is made of what `sign` computes for each of its lines, in order, each with a newline;
  -- if the proof file can be written and is another file, and diff exits with 0 only on equal
  -- files.
  pub verify_sound :
      (w' : World)
      → DiffRejects T
      → IsWritable proof w
      → path_eq proof sf ≡ false
      → verify T x sf root false w ≡ (ok tt, w')
      → (text : Text) × (node_at sf w.nodes ≡ some (file text))
        × (text ≡ lines_text (map (sign_line T root emptied) (file_lines text)))
  unfolding verify
  verify_sound w' rejects writable other e =
      signed (node_at sf emptied.nodes) refl (rw (write_lem proof [] w writable) at e)
    where
      at_start : node_at sf emptied.nodes ≡ node_at sf w.nodes
      at_start = node_at-put_node_ne proof sf (file []) w.nodes other

      signed :
          (o : Option Node)
          → node_at sf emptied.nodes ≡ o
          → run_on (sign T sf root emptied) (λ sigs. compare_with T x sf sigs) ≡ (ok tt, w')
          → (text : Text) × (node_at sf w.nodes ≡ some (file text))
            × (text ≡ lines_text (map (sign_line T root emptied) (file_lines text)))
      signed none h k = cc (rw (sign_raises T root sf emptied none (λ text q. cc) h).1 at k)
      signed (some dir) h k =
          cc (rw (sign_raises T root sf emptied (some dir) (λ text q. cc) h).1 at k)
      signed (some (file text)) h k = (
        text,
        sym at_start ∙ h,
        file_injective (
            sym h
            ∙ compare_with_sound (map (sign_line T root emptied) (file_lines text)) emptied w'
                rejects emptied-IsWritable other (rw (sign_text T root sf emptied text h) at k)),
      )
