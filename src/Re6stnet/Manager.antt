-- ===== src/Re6stnet/Manager.antt =====
-- slapos/recipe/re6stnet/re6stnet.py: the manager's three passes over the directory of requests.
use Prim.Native.Char.{code}
use slapos_abilian_edge.Base.{String, ◌<>◌, Bool, true, ◌||◌, Option, none, some, List, [], ◌∷◌}
use slapos_abilian_edge.Base.{◌++◌, str_eq, ◌==◌, if◌then◌else◌}
use slapos_abilian_edge.Base.Dict.{Dict, lookup, insert, erase, has}
use slapos_abilian_edge.Base.Py.{Outcome, ok, raised, Py, run_on}
use slapos_abilian_edge.Base.Text.{Text, codes, text_eq, lower}

abbrev pub Files : Type 0
Files = Dict Text

-- The name before the last dot and what is after it.
unfoldable pub last_dot : String → Option (String × String)
last_dot String.[] = none
last_dot (String.◌∷◌ c s) = elim (last_dot s) [
  | some (a, b) ↦ some (String.◌∷◌ c a, b)
  | none ↦ if code c == b'.' then some ("", s) else none
]

-- `Path(name).stem` and `Path(name).suffix`: a dot at an end of the name begins no suffix.
unfoldable pub stem : String → String
unfolding last_dot
stem name = elim (last_dot name) [
  | none ↦ name
  | some (a, b) ↦ if str_eq a "" || str_eq b "" then name else a
]

unfoldable pub suffix : String → String
unfolding last_dot
suffix name = elim (last_dot name) [
  | none ↦ ""
  | some (a, b) ↦ if str_eq a "" || str_eq b "" then "" else "." <> b
]

-- `Path(name).with_suffix(ext)`
unfoldable pub with_suffix : String → String → String
unfolding stem
with_suffix name ext = stem name <> ext

-- What is published for an instance.
pub record Info : Type 0 where
  pub token : Text
  pub info : Text
  pub ipv6 : Text
  pub ipv4 : Text

-- The registry and the Master, whose states are `R`; `none` is Python's `None`.
pub record Client (R : Type 0) : Type 0 where
  pub add_token : Text → Text → Py R (Option Text)
  pub delete_token : Text → Py R (Unit {0})
  pub is_token : Text → Py R Bool
  pub get_node_prefix : Text → Py R Text
  pub revoke : Text → Py R (Unit {0})
  pub get_ipv6_address : Text → Py R Text
  pub get_ipv4_information : Text → Py R Text
  pub set_connection_dict : Info → String → Py R (Unit {0})

-- `'%s@slapos' % reference.lower()`
unfoldable pub email_of : String → Text
email_of reference = lower (codes reference) ++ codes "@slapos"

-- `readFile`
unfoldable pub read_file : String → Files → Text
read_file name files = elim (lookup name files) [ some t ↦ t | none ↦ [] ]

-- `updateFile`
unfoldable pub update_file : String → Text → Files → Files
unfolding read_file
update_file name value files =
    if text_eq (read_file name files) value then files else insert name value files

-- `[x for x in token_base_path.iterdir() if x.suffix == ext]`
unfoldable pub path_list : String → Files → List String
unfolding suffix
path_list ext [] = []
path_list ext ((name, _) ∷ files) =
    let rest = path_list ext files in if str_eq (suffix name) ext then name ∷ rest else rest

module _ {R : Type 0} (C : Client R) where
  -- The state of a pass: the directory, and the registry with the Master.
  abbrev pub World : Type 0
  World = Files × R

  -- `result in (token, None)`
  unfoldable pub accepted : Text → Option Text → Bool
  accepted token none = true
  accepted token (some result) = text_eq result token

  -- The status is written, then the request is removed.
  unfoldable pub added : String → Files → Files
  unfolding update_file with_suffix stem
  added name files =
      erase name (update_file (with_suffix (stem name) ".status") (codes "TOKEN_ADDED") files)

  -- The body of the loop of `requestAddToken`.
  unfoldable pub add_one : String → World → World
  unfolding read_file email_of accepted added stem
  add_one name (files, r) = elim (read_file name files) [
    | [] ↦ (files, r)
    | c ∷ t ↦
        let (answer, r₁) = C.add_token (email_of (stem name)) (c ∷ t) r in
        elim answer [
          | raised _ ↦ (files, r₁)
          | ok result ↦ if accepted (c ∷ t) result then (added name files, r₁) else (files, r₁)
        ]
  ]

  unfoldable pub add_all : List String → World → World
  unfolding add_one
  add_all [] w = w
  add_all (name ∷ names) w = add_all names (add_one name w)

  -- `requestAddToken`
  unfoldable pub request_add_token : World → World
  unfolding add_all path_list
  request_add_token w = add_all (path_list ".add" w.0) w

  -- The request, the status and the address of a token that is gone.
  unfoldable pub clean_up : String → Files → Files
  unfolding with_suffix
  clean_up name files =
      erase (with_suffix name ".ipv6") (erase (with_suffix name ".status") (erase name files))

  -- The certificate of the node is revoked if there is one.
  unfoldable pub revoke_node : String → World → World
  unfolding email_of stem clean_up
  revoke_node name (files, r) =
      let (answer, r₁) = C.get_node_prefix (email_of (stem name)) r in
      elim answer [
        | raised _ ↦ (files, r₁)
        | ok cn ↦ elim cn [
          | [] ↦ (clean_up name files, r₁)
          | c ∷ prefix ↦
              let (revoked, r₂) = C.revoke (c ∷ prefix) r₁ in
              elim revoked [ raised _ ↦ (files, r₂) | ok _ ↦ (clean_up name files, r₂) ]
        ]
      ]

  -- The body of the loop of `requestRemoveToken`.
  unfoldable pub remove_one : String → Py World (Unit {0})
  unfolding read_file revoke_node
  remove_one name (files, r) = elim (read_file name files) [
    | [] ↦ (ok tt, (files, r))
    | c ∷ t ↦
        let (deleted, r₁) = C.delete_token (c ∷ t) r in
        elim deleted [
          | raised _ ↦ (ok tt, (files, r₁))
          | ok _ ↦
              let (known, r₂) = C.is_token (c ∷ t) r₁ in
              elim known [
                | raised e ↦ (raised e, (files, r₂))
                | ok b ↦ if b then (ok tt, (files, r₂)) else (ok tt, revoke_node name (files, r₂))
              ]
        ]
  ]

  unfoldable pub remove_all : List String → Py World (Unit {0})
  unfolding remove_one
  remove_all [] w = (ok tt, w)
  remove_all (name ∷ names) w = run_on (remove_one name w) (λ _. remove_all names)

  -- `requestRemoveToken`
  unfoldable pub request_remove_token : Py World (Unit {0})
  unfolding remove_all path_list
  request_remove_token w = remove_all (path_list ".remove" w.0) w

  unfoldable pub message_of : Text → Text
  message_of status =
      if text_eq status (codes "TOKEN_ADDED")
      then codes "Token is ready for use"
      else if text_eq status (codes "TOKEN_USED")
      then codes "Token not available, it has been used to generate re6stnet certificate."
      else status

  -- An answer of the registry, or the default if it fails or is empty.
  unfoldable pub answer_or : Text → Outcome Text × R → Text × R
  answer_or default (raised _, r) = (default, r)
  answer_or default (ok [], r) = (default, r)
  answer_or default (ok (c ∷ t), r) = (c ∷ t, r)

  -- The same, but an empty answer is kept.
  unfoldable pub answer_else : Text → Outcome Text × R → Text × R
  answer_else default (raised _, r) = (default, r)
  answer_else default (ok t, r) = (t, r)

  unfoldable pub addresses : Text → String → R → (Text × Text) × R
  unfolding answer_or answer_else email_of
  addresses status reference r =
      if text_eq status (codes "TOKEN_USED")
      then (let six = answer_else (codes "::") (C.get_ipv6_address (email_of reference) r) in
          let four =
            answer_or (codes "0.0.0.0") (C.get_ipv4_information (email_of reference) six.1) in
          ((six.0, four.0), four.1))
      else ((codes "::", codes "0.0.0.0"), r)

  -- What is sent for a token, whose failure is only logged.
  unfoldable pub send : String → Text → World → World
  unfolding read_file addresses message_of with_suffix
  send reference token (files, r) =
      let status = read_file (with_suffix reference ".status") files in
      let a = addresses status reference r in
      (
        files,
        (C.set_connection_dict
            (record { token = token; info = message_of status; ipv6 = a.0.0; ipv4 = a.0.1 })
            reference a.1).1,
      )

  -- The body of the loop of `checkService`.
  unfoldable pub check_one : String → Text → Py World (Unit {0})
  unfolding send update_file with_suffix
  check_one reference token (files, r) =
      let status_file = with_suffix reference ".status" in
      let (known, r₁) = C.is_token token r in
      if has status_file files
      then elim known [
        | raised e ↦ (raised e, (files, r₁))
        | ok b ↦
            let files₁ = if b then files else update_file status_file (codes "TOKEN_USED") files in
            (ok tt, send reference token (files₁, r₁))
      ]
      else (ok tt, (files, r))

  -- `checkService`, over the tokens of the file
  unfoldable pub check_service : Dict Text → Py World (Unit {0})
  unfolding check_one
  check_service [] w = (ok tt, w)
  check_service ((reference, token) ∷ tokens) w =
      run_on (check_one reference token w) (λ _. check_service tokens)

  -- `manage`
  unfoldable pub manage : Dict Text → Py World (Unit {0})
  unfolding request_add_token request_remove_token check_service
  manage tokens w = run_on (request_remove_token (request_add_token w)) (λ _. check_service tokens)
