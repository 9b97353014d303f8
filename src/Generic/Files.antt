-- ===== src/Generic/Files.antt =====
-- Lemmas on `createFile` of slapos/recipe/librecipe/generic.py.
use slapos_abilian_edge.Generic.{
  Node, file, directory, Disk, System, same_content, kept_node, mode_of, unlink_error, write_file,
  replace_file, keep_or_replace, create_file,
}
use slapos_abilian_edge.Base.{ℕ, zero, suc, String, ◌≡◌, refl, ◌∙◌, ◌⊎◌, inl, inr, Bool, true}
use slapos_abilian_edge.Base.{false, ◌&&◌, ◌||◌, Option, none, some, [], ◌∷◌, arith, str_eq}
use slapos_abilian_edge.Base.{eq_refl, ◌==◌, if◌then◌else◌, Bool-cases, length, take}
use slapos_abilian_edge.Base.Dict.{Dict, lookup, insert, erase, lookup-insert, lookup-erase}
use slapos_abilian_edge.Base.Py.{os_error, Outcome, ok, raised, is_ok}
use slapos_abilian_edge.Base.Text.{Text, text_eq_iff}

cons_tail : {x y : ℕ} {s t : Text} → x ∷ s ≡ y ∷ t → (x ≡ y) × (s ≡ t)
cons_tail h = (cc, cc)

-- One more byte than the content has is enough to tell a file that only begins with it.
same_take : (n : ℕ) (c content : Text) → length content ≡ n → take (suc n) c ≡ content → c ≡ content
same_take n [] content h e = e
same_take n (x ∷ c) [] h e = cc
same_take zero (x ∷ c) (y ∷ content) h e = absurd (omega (arith, h))
same_take (suc n) (x ∷ c) (y ∷ content) h e =
    let (p, q) = cons_tail e in rw (p, same_take n c content (omega (arith, h)) q) refl

take_all : (c : Text) → take (suc (length c)) c ≡ c
take_all [] = refl
take_all (x ∷ c) = rw (take_all c) refl

insert-same :
    {V : Type 0} (k : String) (v : V) (d : Dict V) → lookup k d ≡ some v → insert k v d ≡ d
unfolding lookup insert
insert-same k v [] h = cc
insert-same k v ((j, w) ∷ d) h = go (str_eq j k) h (insert-same k v d)
  where
    go :
        (b : Bool)
        → (if b then some w else lookup k d) ≡ some v
        → (lookup k d ≡ some v → insert k v d ≡ d)
        → (if b then (j, v) ∷ d else (j, w) ∷ insert k v d) ≡ (j, w) ∷ d
    go true l ih = let e : w ≡ v = cc in rw e refl
    go false l ih = rw (ih l) refl

module _ (Y : System) where
  -- A file with the content and, if one was asked for, the mode.
  abbrev pub Created : String → Text → Option ℕ → Disk → Type 0
  Created name content mode disk =
      (m : ℕ) × (i : ℕ) × (lookup name disk.nodes ≡ some (file content m i))
      × (m ≡ mode_of Y mode ⊎ (mode ≡ none))

  -- The paths but one are as they were.
  abbrev pub Others : String → Disk → Disk → Type 0
  Others name before after =
      (p : String) → str_eq name p ≡ false → lookup p after.nodes ≡ lookup p before.nodes

  abbrev Result : String → Text → Option ℕ → Disk → Outcome String × Disk → Type 0
  Result name content mode before q =
      Others name before q.1 × (is_ok q.0 ≡ true → Created name content mode q.1)

  write_file-Result :
      (name : String) (content : Text) (mode : Option ℕ) (disk : Disk)
      → Result name content mode disk (write_file Y name content mode disk)
  unfolding write_file
  write_file-Result name content mode disk = go (Bool-cases (Y.write_error name == 0))
    where
      go :
          ((Y.write_error name == 0) ≡ true) ⊎ ((Y.write_error name == 0) ≡ false)
          → Result name content mode disk (write_file Y name content mode disk)
      go (inl e) = rw e (
        (λ p h.
            rw
              (
                lookup-insert name p (file content (mode_of Y mode) disk.next_inode)
                    (erase name disk.nodes),
                h,
                lookup-erase name p disk.nodes,
                h,
              )
              refl),
        λ _. (
          mode_of Y mode,
          disk.next_inode,
          rw
              (
                lookup-insert name name (file content (mode_of Y mode) disk.next_inode)
                    (erase name disk.nodes),
                eq_refl name,
              )
              refl,
          inl refl,
        ),
      )
      go (inr e) = rw e ((λ p h. refl), λ h. cc)

  replace_file-Result :
      (e : ℕ) (name : String) (content : Text) (mode : Option ℕ) (disk : Disk)
      → Result name content mode disk (replace_file Y e name content mode disk)
  unfolding replace_file
  replace_file-Result e name content mode disk = go (e == 0 || e == 2)
    where
      go :
          (b : Bool)
          → Result name content mode disk
              (if b then write_file Y name content mode disk else (raised (os_error e), disk))
      go true = write_file-Result name content mode disk
      go false = ((λ p h. refl), λ h. cc)

  second : (a b : Bool) → (a && b) ≡ true → b ≡ true
  second true b h = h
  second false b h = cc

  kept :
      (mode : Option ℕ) (c : Text) (m i : ℕ)
      → (m' : ℕ) × (kept_node Y mode (file c m i) ≡ file c m' i)
        × (m' ≡ mode_of Y mode ⊎ mode ≡ none)
  unfolding kept_node
  kept none c m i = (m, refl, inr refl)
  kept (some k) c m i = (k, refl, inl refl)

  kept-Result :
      (node : Option Node) (name : String) (content : Text) (mode : Option ℕ) (disk : Disk)
      → lookup name disk.nodes ≡ node
      → same_content Y node content ≡ true
      → Result name content mode disk (keep_or_replace Y true node name content mode disk)
  unfolding same_content keep_or_replace kept_node
  kept-Result none name content mode disk l h = cc
  kept-Result (some directory) name content mode disk l h = cc
  kept-Result (some (file c m i)) name content mode disk l h =
      let e : c ≡ content =
        same_take (length content) c content refl
          ((text_eq_iff (take (suc (length content)) c) content).0 (second (Y.can_read m) _ h)) in
      let (m', k, g) = kept mode c m i in
      rw k (
        (λ p f. rw (lookup-insert name p (file c m' i) disk.nodes, f) refl),
        λ _.
            (m', i, rw (lookup-insert name name (file c m' i) disk.nodes, eq_refl name, e) refl, g),
      )

  -- When `createFile` returns, the file has exactly the content, and the mode if one was asked for;
  -- whether it returns or raises an exception, what stands at other paths stays as it is.
  pub create_file_lem :
      (name : String) (content : Text) (mode : Option ℕ) (disk : Disk)
      → Others name disk (create_file Y name content mode disk).1
        × (is_ok (create_file Y name content mode disk).0 ≡ true
            → Created name content mode (create_file Y name content mode disk).1)
  unfolding create_file
  create_file_lem name content mode disk = go (lookup name disk.nodes) refl
    where
      go :
          (node : Option Node)
          → lookup name disk.nodes ≡ node
          → Result name content mode disk
              (keep_or_replace Y (same_content Y node content) node name content mode disk)
      go node l = branch (same_content Y node content) refl
        where
          replaced :
              (n : Option Node)
              → Result name content mode disk (keep_or_replace Y false n name content mode disk)
          replaced none = replace_file-Result (unlink_error Y name none) name content mode disk
          replaced (some n) =
              replace_file-Result (unlink_error Y name (some n)) name content mode disk

          branch :
              (b : Bool)
              → same_content Y node content ≡ b
              → Result name content mode disk (keep_or_replace Y b node name content mode disk)
          branch true e = kept-Result node name content mode disk l e
          branch false e = replaced node

  unchanged :
      (name : String) (content : Text) (k i : ℕ) (disk : Disk)
      → Y.can_read k ≡ true
      → lookup name disk.nodes ≡ some (file content k i)
      → create_file Y name content (some k) disk ≡ (ok (Y.abspath name), disk)
  unfolding create_file same_content keep_or_replace kept_node
  unchanged name content k i disk readable l =
      rw
        (
          l,
          readable,
          take_all content,
          (text_eq_iff content content).1 refl,
          insert-same name (file content k i) disk.nodes l,
        )
        refl

  -- A file that was created once is kept as it is, with its inode, when it is created again with
  -- the same content and a mode that lets its owner read it: nothing on the disk changes.
  pub create_file-again :
      (name : String) (content : Text) (k : ℕ) (disk : Disk)
      → Y.can_read k ≡ true
      → is_ok (create_file Y name content (some k) disk).0 ≡ true
      → create_file Y name content (some k) (create_file Y name content (some k) disk).1
        ≡ (ok (Y.abspath name), (create_file Y name content (some k) disk).1)
  create_file-again name content k disk readable h =
      go ((create_file_lem name content (some k) disk).1 h)
    where
      go :
          Created name content (some k) (create_file Y name content (some k) disk).1
          → create_file Y name content (some k) (create_file Y name content (some k) disk).1
            ≡ (ok (Y.abspath name), (create_file Y name content (some k) disk).1)
      go (m, i, l, inl e) = unchanged name content k i _ readable (l ∙ rw e refl)
      go (m, i, l, inr e) = cc
