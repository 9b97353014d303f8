-- ===== src/Random/Laws.antt =====
-- Lemmas on slapos/recipe/random.py.
use slapos_abilian_edge.Base.{ℕ, zero, suc, ◌/◌, ◌%◌, ◌≤◌, ◌<◌, String, ◌≡◌, refl, ap, ◌∙◌, inl}
use slapos_abilian_edge.Base.{inr, Bool, true, false, ◌&&◌, ◌||◌, Option, none, some, [], ◌∷◌, ◌++◌}
use slapos_abilian_edge.Base.{arith, eq_refl, leb, ◌==◌, if◌then◌else◌, ==_iff, Bool-cases, length}
use slapos_abilian_edge.Base.{All}
use slapos_abilian_edge.Base.Dict.{Dict, lookup, insert, lookup-insert}
use slapos_abilian_edge.Base.Py.{key_error, os_error, Outcome, ok, raised, ok_injective, run_on}
use slapos_abilian_edge.Base.Text.{Text, codes, text_eq_iff, join, has_char}
use slapos_abilian_edge.Base.Str.{strip_prefix}
use slapos_abilian_edge.Random.{
  Node, file, broken, Files, dict, Tools, read, write, read_if, given, hex_digit, hex_octet, octets,
  new_mac, mac_init, mac_install, alphabet, generate_password, strip_newlines, stored_passwords,
  replace, known_passwords, completed, password_init, differs, password_install, missing,
  underscored,
}

-- What was written is read.
write_read :
    (path : String) (text : Text) (fs fs₁ : Files)
    → write path text fs ≡ (ok tt, fs₁)
    → read_if path fs₁ ≡ ok (some text)
unfolding write read_if read
write_read path text fs fs₁ h = go (lookup path fs) h
  where
    stored : read_if path (insert path (file text) fs) ≡ ok (some text)
    stored = rw (read_if, read, lookup-insert path path (file text) fs, eq_refl path) refl

    go :
        (n : Option Node)
        → (elim n as (λ _. Outcome (Unit {0}) × Files) [
          | none ↦ (ok tt, insert path (file text) fs)
          | some (file _) ↦ (ok tt, insert path (file text) fs)
          | some (broken e) ↦ (raised (os_error e), fs)
        ])
          ≡ (ok tt, fs₁)
        → read_if path fs₁ ≡ ok (some text)
    go none e = rw (ap (λ p. p.1) e) at stored
    go (some (file t)) e = rw (ap (λ p. p.1) e) at stored
    go (some (broken n)) e = cc

-- An address that was installed is found again when the option is not set, and is not made anew.
pub mac-stable :
    (T : Tools) (path : String) (c : ℕ) (mac : Text) (fs fs₁ : Files)
    → mac_install path (c ∷ mac) fs ≡ (ok tt, fs₁)
    → mac_init T path none fs₁ ≡ ok (c ∷ mac, false)
unfolding mac_init mac_install given
mac-stable T path c mac fs fs₁ h = rw (write_read path (c ∷ mac) fs fs₁ h) refl

-- A hexadecimal digit or a colon.
pub IsMacChar : ℕ → Type 0
IsMacChar c = (leb b'0' c && leb c b'9') || ((leb b'a' c && leb c b'f') || c == b':') ≡ true

hex_digit-IsMacChar : (n : ℕ) → n < 16 → IsMacChar (hex_digit n)
unfolding hex_digit IsMacChar
hex_digit-IsMacChar n h = ground arith

hex_octet-IsMacChar : (n : ℕ) → n ≤ 255 → All IsMacChar (hex_octet n)
unfolding hex_octet
hex_octet-IsMacChar n h =
    (hex_digit-IsMacChar (n / 16) (omega arith), (hex_digit-IsMacChar (n % 16) (omega arith), tt))

octet-All :
    (n : ℕ)
    → n ≤ 255
    → (rest : Text) → All IsMacChar rest
    → All IsMacChar (hex_octet n ++ b':' ∷ rest)
unfolding hex_octet IsMacChar
octet-All n h rest all = let (a, b) = hex_octet-IsMacChar n h in (a, (b.0, (refl, all)))

-- If the draws of `randint(0, 255)` are at most 255, a new address is 17 characters long, all
-- hexadecimal digits or colons, and begins with the octet of a locally administered address.
pub new_mac_lem :
    (T : Tools)
    → ((n : ℕ) → T.randint_to n 255 ≤ 255)
    → (length (new_mac T) ≡ 17)
      × All IsMacChar (new_mac T)
      × ((rest : Text) × (new_mac T ≡ codes "fe:" ++ rest))
unfolding new_mac octets join IsMacChar hex_octet
new_mac_lem T h =
    let hex : ℕ → Text = λ i. hex_octet (T.randint_to i 255) in
    let o : (i : ℕ) (rest : Text) → All IsMacChar rest → All IsMacChar (hex i ++ b':' ∷ rest) =
      λ i. octet-All (T.randint_to i 255) (h i) in
    let t₃ = hex 3 ++ b':' ∷ hex 4 in
    let t₂ = hex 2 ++ b':' ∷ t₃ in
    let t₁ = hex 1 ++ b':' ∷ t₂ in
    let last = hex_octet-IsMacChar (T.randint_to 4 255) (h 4) in
    (refl, (refl, (refl, (refl, o 0 t₁ (o 1 t₂ (o 2 t₃ (o 3 (hex 4) last)))))), (_, refl))

&&-true : (a b : Bool) → (a && b) ≡ true → (a ≡ true) × (b ≡ true)
&&-true true b h = (refl, h)
&&-true false b h = cc

-- A lower case letter, an upper case letter or a digit of ASCII.
pub is_alphanumeric : ℕ → Bool
is_alphanumeric c =
    leb b'a' c && leb c b'z' || (leb b'A' c && leb c b'Z' || leb b'0' c && leb c b'9')

all_alphanumeric : Text → Bool
all_alphanumeric [] = true
all_alphanumeric (c ∷ s) = is_alphanumeric c && all_alphanumeric s

all_alphanumeric_lem :
    (c : ℕ) (s : Text) → all_alphanumeric s ≡ true → has_char c s ≡ true → is_alphanumeric c ≡ true
unfolding all_alphanumeric has_char
all_alphanumeric_lem c [] a h = cc
all_alphanumeric_lem c (d ∷ s) a h = elim (Bool-cases (d == c)) [
  | inl e ↦ rw (← ((==_iff d c).0 e)) (&&-true (is_alphanumeric d) (all_alphanumeric s) a).0
  | inr n ↦
      all_alphanumeric_lem c s (&&-true (is_alphanumeric d) (all_alphanumeric s) a).1 (rw n at h)
]

alphabet-alphanumeric : all_alphanumeric alphabet ≡ true
unfolding all_alphanumeric is_alphanumeric
alphabet-alphanumeric = refl

-- The choice among the characters of a text is one of them.
abbrev pub Chooses : Tools → Type 0
Chooses T = (i c : ℕ) (s : Text) → has_char (T.choice i (c ∷ s)) (c ∷ s) ≡ true

-- A generated password has the length that was asked for and only letters and digits of ASCII, if
-- `choice` picks one of the characters that it is given.
pub generate_password_lem :
    (T : Tools) (n k : ℕ)
    → Chooses T
    → (length (generate_password T n k) ≡ k)
      × All (λ c. is_alphanumeric c ≡ true) (generate_password T n k)
unfolding generate_password
generate_password_lem T n zero h = (refl, tt)
generate_password_lem T n (suc k) h =
    let (e, all) = generate_password_lem T (suc n) k h in
    (
      ap suc e,
      (all_alphanumeric_lem (T.choice n alphabet) alphabet alphabet-alphanumeric (h n _ _), all),
    )

-- What `json` promises of a dictionary of texts: its text is read back, and no newline stands at
-- its ends.
pub record JsonReads (T : Tools) (d : Dict Text) : Type 0 where
  pub loads-dumps : T.loads (T.dumps d) ≡ ok (dict d)
  pub strip-dumps : strip_newlines (T.dumps d) ≡ T.dumps d

differs_lem : (stored : Option Text) (t : Text) → differs stored t ≡ false → stored ≡ some t
unfolding differs
differs_lem none t h = cc
differs_lem (some s) t h = ap some ((text_eq_iff s t).0 (ground arith))

-- After an installation the file holds the dictionary.
install_read :
    (T : Tools) (path : String) (once : Bool) (d : Dict Text) (r : Option String) (fs fs₁ : Files)
    → password_install T (some path) once d fs ≡ (ok r, fs₁)
    → read_if path fs₁ ≡ ok (some (T.dumps d))
unfolding password_install
install_read T path once d r fs fs₁ h = go (read_if path fs) refl h
  where
    written :
        (p : Outcome (Unit {0}) × Files)
        → write path (T.dumps d) fs ≡ p
        → run_on p (λ _ fs. (ok (if once then none else some path), fs)) ≡ (ok r, fs₁)
        → read_if path fs₁ ≡ ok (some (T.dumps d))
    written (ok tt, fs₂) e f = rw (← (ap (λ p. p.1) f)) (write_read path (T.dumps d) fs fs₂ e)
    written (raised x, fs₂) e f = cc

    compared :
        (stored : Option Text) (b : Bool)
        → read_if path fs ≡ ok stored
        → differs stored (T.dumps d) ≡ b
        → (if b
            then run_on
                (write path (T.dumps d) fs)
                (λ _ fs. (ok (if once then none else some path), fs))
            else (ok (if once then none else some path), fs))
          ≡ (ok r, fs₁)
        → read_if path fs₁ ≡ ok (some (T.dumps d))
    compared stored true q e f = written (write path (T.dumps d) fs) refl f
    compared stored false q e f =
        rw (← (ap (λ p. p.1) f)) (q ∙ ap ok (differs_lem stored (T.dumps d) e))

    go :
        (o : Outcome (Option Text))
        → read_if path fs ≡ o
        → (elim o as (λ _. Outcome (Option String) × Files) [
          | raised e ↦ (raised e, fs)
          | ok stored ↦
              if differs stored (T.dumps d)
              then run_on
                  (write path (T.dumps d) fs)
                  (λ _ fs. (ok (if once then none else some path), fs))
              else (ok (if once then none else some path), fs)
        ])
          ≡ (ok r, fs₁)
        → read_if path fs₁ ≡ ok (some (T.dumps d))
    go (raised e) q f = cc
    go (ok stored) q f = compared stored (differs stored (T.dumps d)) q refl f

completed_lem :
    (T : Tools) (bytes : Option Text) (d : Dict Text) (c : ℕ) (t : Text)
    → lookup "" d ≡ some (c ∷ t)
    → completed T bytes (dict d) ≡ ok (d, false)
unfolding completed
completed_lem T bytes d c t k = rw (completed, k) refl

-- Once a dictionary with a password is installed whose JSON form is read back, the next run without a given password finds the
-- same dictionary in the file and generates nothing.
pub password-stable :
    (T : Tools) (path : String) (once : Bool) (d : Dict Text) (c : ℕ) (t : Text) (r : Option String)
    (bytes : Option Text) (fs fs₁ : Files)
    → JsonReads T d
    → lookup "" d ≡ some (c ∷ t)
    → password_install T (some path) once d fs ≡ (ok r, fs₁)
    → password_init T (some path) (record { bytes = bytes; passwd = none }) fs₁ ≡ ok (d, false)
unfolding password_init known_passwords replace given
password-stable T path once d c t r bytes fs fs₁ reads k h =
    rw
      (
        install_read T path once d r fs fs₁ h,
        reads.strip-dumps,
        stored_passwords,
        reads.loads-dumps,
      )
      (completed_lem T bytes d c t k)

-- A hash that was asked for once is the same ever after.
missing-stable :
    (T : Tools) (key : String) (d d₁ : Dict Text) (h : Text)
    → missing T key d ≡ ok (h, d₁)
    → missing T key d₁ ≡ ok (h, d₁)
unfolding missing
missing-stable T key d d₁ h e = named (strip_prefix "passwd-" key) refl e
  where
    ask : Dict Text → Option String → Outcome (Text × Dict Text)
    ask d₂ n = elim n [
      | none ↦ raised key_error
      | some name ↦ elim (lookup key d₂) [
        | some h ↦ ok (h, d₂)
        | none ↦ elim (T.handler (underscored name)) [
          | none ↦ raised key_error
          | some hash ↦ elim (lookup "" d₂) [
            | none ↦ raised key_error
            | some passwd ↦ ok (hash passwd, insert key (hash passwd) d₂)
          ]
        ]
      ]
    ]

    kept : (name : String) → lookup key d₁ ≡ some h → ask d₁ (some name) ≡ ok (h, d₁)
    kept name q = rw (ask, q) refl

    hashed :
        (hash : Option (Text → Text)) (name : String)
        → (elim hash as (λ _. Outcome (Text × Dict Text)) [
          | none ↦ raised key_error
          | some hash ↦ elim (lookup "" d) [
            | none ↦ raised key_error
            | some passwd ↦ ok (hash passwd, insert key (hash passwd) d)
          ]
        ])
          ≡ ok (h, d₁)
        → lookup key d₁ ≡ some h
    hashed none name f = cc
    hashed (some hash) name f = stored (lookup "" d) f
      where
        stored :
            (o : Option Text)
            → (elim o as (λ _. Outcome (Text × Dict Text)) [
              | none ↦ raised key_error
              | some passwd ↦ ok (hash passwd, insert key (hash passwd) d)
            ])
              ≡ ok (h, d₁)
            → lookup key d₁ ≡ some h
        stored none f = cc
        stored (some p) f =
            let pair = ok_injective f in
            rw (← (ap (λ q. q.1) pair))
              (rw (lookup-insert key key (hash p) d, eq_refl key) (ap (λ q. some (q.0)) pair))

    found :
        (o : Option Text) (name : String)
        → lookup key d ≡ o
        → (elim o as (λ _. Outcome (Text × Dict Text)) [
          | some h ↦ ok (h, d)
          | none ↦ elim (T.handler (underscored name)) [
            | none ↦ raised key_error
            | some hash ↦ elim (lookup "" d) [
              | none ↦ raised key_error
              | some passwd ↦ ok (hash passwd, insert key (hash passwd) d)
            ]
          ]
        ])
          ≡ ok (h, d₁)
        → lookup key d₁ ≡ some h
    found (some v) name q f =
        let pair = ok_injective f in rw (← (ap (λ q. q.1) pair)) (q ∙ ap (λ q. some (q.0)) pair)
    found none name q f = hashed (T.handler (underscored name)) name f

    named :
        (n : Option String)
        → strip_prefix "passwd-" key ≡ n
        → ask d n ≡ ok (h, d₁)
        → ask d₁ n ≡ ok (h, d₁)
    named none q f = cc
    named (some name) q f = kept name (found (lookup key d) name refl f)
