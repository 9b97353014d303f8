-- ===== src/Dcron/Entries.antt =====
-- Lemmas on `Part.install` of slapos/recipe/dcron.py.
use slapos_abilian_edge.Dcron.{systemd_to_cron}
use slapos_abilian_edge.Dcron.Part.{Options, option, periodicity, entry, part_install}
use slapos_abilian_edge.Base.{String, ◌≡◌, refl, sym, ap, ◌∙◌, ◌⊎◌, inl, inr, false, Option, none}
use slapos_abilian_edge.Base.{some, List, [], ◌∷◌, ◌++◌, str_eq, eq_refl}
use slapos_abilian_edge.Base.Dict.{Dict, lookup, insert, lookup-insert}
use slapos_abilian_edge.Base.Py.{Exc, user_error, missing_option, Outcome, ok, raised, bind}
use slapos_abilian_edge.Base.Py.{bind-eq-ok, ok_injective}
use slapos_abilian_edge.Base.Text.{Text, codes}
use slapos_abilian_edge.Base.Str.{path_join}

option-ok :
    (options : Options) (key v : String) → option options key ≡ ok v → lookup key options ≡ some v
unfolding option
option-ok options key v e = go (lookup key options) e
  where
    go :
        (o : Option String)
        → (elim o as (λ _. Outcome String) [ none ↦ raised missing_option | some v ↦ ok v ]) ≡ ok v
        → o ≡ some v
    go (some w) h = ap some (ok_injective h)
    go none h = cc

option-raised :
    (options : Options) (key : String) (e : Exc)
    → option options key ≡ raised e
    → lookup key options ≡ none
unfolding option
option-raised options key e h = go (lookup key options) h
  where
    go :
        (o : Option String)
        → (elim o as (λ _. Outcome String) [ none ↦ raised missing_option | some v ↦ ok v ])
          ≡ raised e
        → o ≡ none
    go (some w) k = cc
    go none k = refl

-- When the entry runs: at the frequency, or where there is none, at the time in the form of a
-- crontab.
pub When : Options → Text → Type 0
When options when =
    ((f : String) × (lookup "frequency" options ≡ some f) × (when ≡ codes f))
    ⊎ ((lookup "frequency" options ≡ none)
        × ((t : String) × (lookup "time" options ≡ some t) × (systemd_to_cron (codes t) ≡ ok when)))

-- The path is that of the name in the directory of entries.
pub IsEntryPath : Options → String → Type 0
IsEntryPath options path =
    (cron_d name : String) × (lookup "cron-entries" options ≡ some cron_d)
    × (lookup "name" options ≡ some name)
    × (path ≡ path_join cron_d name)

periodicity-When :
    (options : Options) (when : Text) → periodicity options ≡ ok when → When options when
unfolding periodicity When
periodicity-When options when e = go (lookup "frequency" options) refl e
  where
    timed :
        (t : String) (o : Outcome Text)
        → systemd_to_cron (codes t) ≡ o
        → (elim o as (λ _. Outcome Text) [ ok line ↦ ok line | raised _ ↦ raised user_error ])
          ≡ ok when
        → systemd_to_cron (codes t) ≡ ok when
    timed t (ok line) h k = h ∙ k
    timed t (raised x) h k = cc

    go :
        (o : Option String)
        → lookup "frequency" options ≡ o
        → (elim o as (λ _. Outcome Text) [
          | some frequency ↦ ok (codes frequency)
          | none ↦ bind (option options "time") λ time. elim (systemd_to_cron (codes time)) [
            | ok line ↦ ok line
            | raised _ ↦ raised user_error
          ]
        ])
          ≡ ok when
        → When options when
    go (some f) h k = inl (f, h, sym (ok_injective k))
    go none h k =
        let (t, h1, e1) = bind-eq-ok (option options "time") _ k in
        inr (h, (t, option-ok options "time" t h1, timed t (systemd_to_cron (codes t)) refl e1))

entry-ok :
    (options : Options) (path : String) (when : Text)
    → entry options ≡ ok (path, when)
    → IsEntryPath options path × When options when
unfolding entry IsEntryPath
entry-ok options path when e =
    let (w, h1, e1) = bind-eq-ok (periodicity options) _ e in
    let (cron_d, h2, e2) = bind-eq-ok (option options "cron-entries") _ e1 in
    let (name, h3, e3) = bind-eq-ok (option options "name") _ e2 in
    let q : (path_join cron_d name, w) ≡ (path, when) = ok_injective e3 in
    (
      (
        cron_d,
        name,
        option-ok options "cron-entries" cron_d h2,
        option-ok options "name" name h3,
        sym (ap (λ (x : String × Text). x.0) q),
      ),
      periodicity-When options when (h1 ∙ ap (λ (x : String × Text). ok (x.1)) q),
    )

-- The files are the same at all paths but one.
pub SameBut : String → Dict Text → Dict Text → Type 0
SameBut path files after = (p : String) → str_eq path p ≡ false → lookup p after ≡ lookup p files

-- An installation that returned, or one that raised: then nothing changed, or the entry was left
-- empty for want of a command.
pub Installed : Options → Dict Text → Outcome (List String) × Dict Text → Type 0
Installed options files (ok paths, after) =
    (path command : String) × (when : Text) × (paths ≡ path ∷ [])
    × IsEntryPath options path
    × When options when
    × (lookup "command" options ≡ some command)
    × (lookup path after ≡ some (when ++ b' ' ∷ (codes command ++ 10 ∷ [])))
    × SameBut path files after
Installed options files (raised e, after) =
    (after ≡ files)
    ⊎ ((path : String) × IsEntryPath options path
        × (lookup "command" options ≡ none)
        × (lookup path after ≡ some [])
        × SameBut path files after)

insert-at :
    (path : String) (text : Text) (files : Dict Text)
    → (lookup path (insert path text files) ≡ some text)
      × SameBut path files (insert path text files)
unfolding SameBut
insert-at path text files = (
  rw (lookup-insert path path text files) (rw (eq_refl path) refl),
  λ p ne. rw (lookup-insert path p text files) (rw ne refl),
)

-- Whatever the options: when the installation of an entry returns, it gives the path of the entry,
-- which is that of its name in the directory of entries, and the file there has one line, the
-- frequency, or else the time in the form of a crontab, a space and the command; files at other
-- paths stay as they are. When it raises an exception, no file has changed, or the command is
-- missing, the file of the entry is empty and those at other paths stay as they are.
pub part_install-Installed :
    (options : Options) (files : Dict Text) → Installed options files (part_install options files)
unfolding part_install Installed
part_install-Installed options files = go (entry options) refl
  where
    open_entry :
        (path : String) (when : Text) (c : Outcome String)
        → entry options ≡ ok (path, when)
        → option options "command" ≡ c
        → Installed options files (elim c as (λ _. Outcome (List String) × Dict Text) [
          | raised e ↦ (raised e, insert path [] files)
          | ok command ↦
              (ok (path ∷ []), insert path (when ++ b' ' ∷ (codes command ++ 10 ∷ [])) files)
        ])
    open_entry path when (ok command) h k =
        let (at_path, at_when) = entry-ok options path when h in
        let (there, others) = insert-at path (when ++ b' ' ∷ (codes command ++ 10 ∷ [])) files in
        (
          path,
          command,
          when,
          refl,
          at_path,
          at_when,
          option-ok options "command" command k,
          there,
          others,
        )
    open_entry path when (raised e) h k =
        let (there, others) = insert-at path [] files in
        inr (
          path,
          (entry-ok options path when h).0,
          option-raised options "command" e k,
          there,
          others,
        )

    go :
        (m : Outcome (String × Text))
        → entry options ≡ m
        → Installed options files (elim m as (λ _. Outcome (List String) × Dict Text) [
          | raised e ↦ (raised e, files)
          | ok made ↦ elim (option options "command") [
            | raised e ↦ (raised e, insert made.0 [] files)
            | ok command ↦ (
              ok (made.0 ∷ []),
              insert made.0 (made.1 ++ b' ' ∷ (codes command ++ 10 ∷ [])) files,
            )
          ]
        ])
    go (raised e) h = inl refl
    go (ok (path, when)) h = open_entry path when (option options "command") h refl
