-- ===== src/Random/Tests.antt =====
-- Random values of a small random source, kept in a few files.
use slapos_abilian_edge.Base.{ℕ, ◌≡◌, refl, true, false, none, some, [], ◌∷◌, ◌++◌, arith, ==_iff}
use slapos_abilian_edge.Base.{length, All}
use slapos_abilian_edge.Base.Dict.{Dict, lookup, insert}
use slapos_abilian_edge.Base.Py.{ok}
use slapos_abilian_edge.Base.Text.{Text, codes, has_char}
use slapos_abilian_edge.Base.Str.{strip_prefix}
use slapos_abilian_edge.Random.{
  file, dict, Tools, new_mac, mac_init, mac_install, generate_password, strip_newlines,
  password_init, password_install, missing,
}
use slapos_abilian_edge.Random.Laws.{
  IsMacChar, Chooses, is_alphanumeric, JsonReads, mac-stable, new_mac_lem, generate_password_lem,
  password-stable,
}

-- A source that always draws the smallest number and the first letter, and a `json` that knows one
-- dictionary.
abbrev kept : Dict Text
kept = ("", codes "kk") ∷ []

abbrev first_letter : ℕ → Text → ℕ
first_letter n [] = 0
first_letter n (c ∷ letters) = c

abbrev tools : Tools
tools = record {
  randint = λ n low high. ok low;
  randint_to = λ n high. 0;
  choice = first_letter;
  loads = λ t. ok (dict kept);
  dumps = λ d. codes "{}";
  handler = λ scheme. some (λ t. b'#' ∷ t);
}

installed : mac_install "mac" (codes "fe:00") [] ≡ (ok tt, ("mac", file (codes "fe:00")) ∷ [])
unfolding mac_install lookup insert
installed = refl

mac-stable_example :
    mac_init tools "mac" none (("mac", file (codes "fe:00")) ∷ []) ≡ ok (codes "fe:00", false)
mac-stable_example =
    mac-stable tools "mac" b'f' (codes "e:00") [] (("mac", file (codes "fe:00")) ∷ []) installed

new_mac_example :
    (length (new_mac tools) ≡ 17)
    × All IsMacChar (new_mac tools)
    × ((rest : Text) × (new_mac tools ≡ codes "fe:" ++ rest))
new_mac_example = new_mac_lem tools (λ n. omega arith)

chosen : Chooses tools
unfolding has_char
chosen i c s = rw ((==_iff c c).1 refl)

generate_password_example :
    (length (generate_password tools 0 16) ≡ 16)
    × All (λ c. is_alphanumeric c ≡ true) (generate_password tools 0 16)
generate_password_example = generate_password_lem tools 0 16 chosen

missing_asked :
    missing tools "passwd-sha256-crypt" kept
    ≡ ok (codes "#kk", ("", codes "kk") ∷ ("passwd-sha256-crypt", codes "#kk") ∷ [])
unfolding missing strip_prefix lookup insert
missing_asked = refl

kept_reads : JsonReads tools kept
unfolding strip_newlines
kept_reads = record { loads-dumps = refl; strip-dumps = refl }

password_installed :
    password_install tools (some "password") true kept []
    ≡ (ok none, ("password", file (codes "{}")) ∷ [])
unfolding password_install lookup insert
password_installed = refl

password-stable_example :
    password_init tools
      (some "password")
      (record { bytes = none; passwd = none })
      (("password", file (codes "{}")) ∷ [])
    ≡ ok (kept, false)
unfolding lookup
password-stable_example =
    password-stable tools "password" true kept b'k' (codes "k") none none []
      (("password", file (codes "{}")) ∷ []) kept_reads refl password_installed
