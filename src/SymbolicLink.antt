-- ===== src/SymbolicLink.antt =====
-- slapos/recipe/symbolic_link.py: links in the directory of binaries of an instance.
mod Tests
use slapos_abilian_edge.Base.{String, ◌≡◌, refl, sym, ◌∙◌, ◌≢◌, inl, inr, false, Option, none, some}
use slapos_abilian_edge.Base.{List, [], ◌∷◌, str_eq, eq_iff, Bool-cases}
use slapos_abilian_edge.Base.Dict.{Dict, lookup, insert, erase, lookup-insert, lookup-erase}
use slapos_abilian_edge.Base.Py.{user_error, missing_option, Outcome, ok, raised, Py, run_on}
use slapos_abilian_edge.Base.Str.{last_part, path_join, str_split, words, lines}

-- What stands at a path: a link, or something that is not one.
pub data Node : Type 0 where
  link : String → Node
  occupied : Node

abbrev pub Files : Type 0
Files = Dict Node

-- The link for a line: an old link is replaced, anything else is an error of the profile.
unfoldable pub make_link : String → String → Py Files (Unit {0})
make_link path target files = elim (lookup path files) [
  | none ↦ (ok tt, insert path (link target) files)
  | some (link _) ↦ (ok tt, insert path (link target) (erase path files))
  | some occupied ↦ (raised user_error, files)
]

-- The path of the link, from the last part of the line.
unfoldable pub link_path : String → String → String
unfolding path_join str_split last_part
link_path target_directory line = path_join target_directory (last_part (str_split b'/' line))

-- The loop of `install`: the links that were made.
unfoldable pub make_links : String → List String → Py Files (List String)
unfolding make_link link_path
make_links target_directory [] files = (ok [], files)
make_links target_directory (line ∷ rest) files =
    run_on (make_link (link_path target_directory line) line files) λ _ fs.
      run_on (make_links target_directory rest fs)
        λ made fs₁. (ok (link_path target_directory line ∷ made), fs₁)

-- `Recipe.install`
unfoldable pub install : Dict String → Py Files (List String)
unfolding make_links
install options files = elim (lookup "target-directory" options) [
  | none ↦ (raised missing_option, files)
  | some directory ↦ elim (lookup "link-binary" options) [
    | none ↦ (raised missing_option, files)
    | some lines ↦ make_links directory (words lines) files
  ]
]

make_link-occupied :
    (path target p : String) (files : Files)
    → lookup p files ≡ some occupied
    → lookup p (make_link path target files).1 ≡ some occupied
unfolding make_link
make_link-occupied path target p files h = go (lookup path files) refl
  where
    apart : (n : Option Node) → lookup path files ≡ n → n ≢ some occupied → str_eq path p ≡ false
    apart n e ne = elim (Bool-cases (str_eq path p)) [
      | inl c ↦ elim (ne (sym e ∙ rw ((eq_iff path p).0 c) h)) [ ]
      | inr c ↦ c
    ]

    go :
        (n : Option Node)
        → lookup path files ≡ n
        → lookup p
            (elim n as (λ _. Outcome (Unit {0}) × Files) [
              | none ↦ (ok tt, insert path (link target) files)
              | some (link _) ↦ (ok tt, insert path (link target) (erase path files))
              | some occupied ↦ (raised user_error, files)
            ]).1
          ≡ some occupied
    go none e = lookup-insert path p (link target) files ∙ rw (apart none e (λ q. cc)) h
    go (some (link t)) e =
        let c = apart (some (link t)) e (λ q. cc) in
        lookup-insert path p (link target) (erase path files)
        ∙ rw c (lookup-erase path p files ∙ rw c h)
    go (some occupied) e = h

make_links-occupied :
    (directory : String) (lines : List String) (p : String) (files : Files)
    → lookup p files ≡ some occupied
    → lookup p (make_links directory lines files).1 ≡ some occupied
unfolding make_links
make_links-occupied directory [] p files h = h
make_links-occupied directory (line ∷ rest) p files h =
    go (make_link (link_path directory line) line files)
      (make_link-occupied (link_path directory line) line p files h)
      (λ fs. make_links-occupied directory rest p fs)
  where
    last :
        (q : Outcome (List String) × Files)
        → lookup p q.1 ≡ some occupied
        → lookup p
            (run_on {B = List String} q (λ made fs₁. (ok (link_path directory line ∷ made), fs₁))).1
          ≡ some occupied
    last (ok made, fs) k = k
    last (raised e, fs) k = k

    go :
        (q : Outcome (Unit {0}) × Files)
        → lookup p q.1 ≡ some occupied
        → ((fs : Files)
            → lookup p fs ≡ some occupied
            → lookup p (make_links directory rest fs).1 ≡ some occupied)
        → lookup p
            (run_on {B = List String} q (λ _ fs.
              run_on {B = List String}
                (make_links directory rest fs)
                (λ made fs₁. (ok (link_path directory line ∷ made), fs₁)))).1
          ≡ some occupied
    go (ok u, fs) k ih = last (make_links directory rest fs) (ih fs k)
    go (raised e, fs) k ih = k

-- Whatever an installation does, also one that raises an exception, what is not a link stays where
-- it is.
pub install-occupied :
    (options : Dict String) (p : String) (files : Files)
    → lookup p files ≡ some occupied
    → lookup p (install options files).1 ≡ some occupied
unfolding install
install-occupied options p files h = directory (lookup "target-directory" options)
  where
    linked :
        (d : String) (l : Option String)
        → lookup p
            (elim l as (λ _. Outcome (List String) × Files) [
              | none ↦ (raised missing_option, files)
              | some lines ↦ make_links d (words lines) files
            ]).1
          ≡ some occupied
    linked d none = h
    linked d (some lines) = make_links-occupied d (words lines) p files h

    directory :
        (d : Option String)
        → lookup p
            (elim d as (λ _. Outcome (List String) × Files) [
              | none ↦ (raised missing_option, files)
              | some directory ↦
                  elim (lookup "link-binary" options) as (λ _. Outcome (List String) × Files) [
                    | none ↦ (raised missing_option, files)
                    | some lines ↦ make_links directory (words lines) files
                  ]
            ]).1
          ≡ some occupied
    directory none = h
    directory (some d) = linked d (lookup "link-binary" options)
