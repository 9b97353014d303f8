-- ===== src/Xbuildout/Laws.antt =====
-- Lemmas on the encoded and decoded names of software/simpleran/ru/xbuildout.py.
use mathlib.Core.List.{append_assoc, append-nil}
use slapos_abilian_edge.Base.{ℕ, zero, suc, ◌+◌, ◌/◌, ◌%◌, ◌≤◌, ◌<◌, ◌≡◌, refl, sym, ap, ◌∙◌, inl}
use slapos_abilian_edge.Base.{inr, Bool, true, false, ◌||◌, List, [], ◌∷◌, ◌++◌, arith, ◌==◌}
use slapos_abilian_edge.Base.{if◌then◌else◌, ==_iff, Bool-cases, All, All-append}
use slapos_abilian_edge.Base.Py.{Exc, value_error, unicode_error, Outcome, ok, raised, bind}
use slapos_abilian_edge.Base.Py.{ok_injective}
use slapos_abilian_edge.Xbuildout.{
  is_plain, encode_byte, encode_bytes, encode, is_utf8, decode_utf8,
}
use slapos_abilian_edge.Xbuildout.{
  is_utf8_of_ascii, int16, hex_digit, unescape, decode_loop, decode,
}

-- A byte that may stand in the name of a buildout section.
abbrev pub SectionByte : ℕ → Type 0
SectionByte c = ((is_plain c || c == b'_') ≡ true) × (c < 0x80)

-- A test of the bytes from 0 on, one by one.
every_byte : (ℕ → Bool) → ℕ → ℕ → Bool
every_byte test start zero = true
every_byte test start (suc left) = if test start then every_byte test (suc start) left else false

every_byte_lem :
    (test : ℕ → Bool) (start left : ℕ) (c : ℕ)
    → every_byte test start left ≡ true
    → start ≤ c
    → c < start + left
    → test c ≡ true
unfolding every_byte
every_byte_lem test start zero c all lo hi = absurd (omega arith)
every_byte_lem test start (suc left) c all lo hi = elim (Bool-cases (c == start)) [
  | inl e ↦ rw ((==_iff c start).0 e) (ground arith)
  | inr e ↦
      every_byte_lem test (suc start) left c (ground arith) (ground (arith, ==_iff c start))
        (omega arith)
]

decodes_to : ℕ → Outcome ℕ → Bool
decodes_to c (ok i) = i == c
decodes_to c (raised _) = false

decodes_to-eq : (c : ℕ) (r : Outcome ℕ) → decodes_to c r ≡ true → r ≡ ok c
unfolding decodes_to
decodes_to-eq c (ok i) h = ground arith
decodes_to-eq c (raised _) h = cc

digits_table :
    every_byte (λ c. decodes_to c (int16 (hex_digit (c / 16)) (hex_digit (c % 16)))) 0 256 ≡ true
unfolding every_byte decodes_to int16 hex_digit
digits_table = refl

int16-digits : (c : ℕ) → c < 256 → int16 (hex_digit (c / 16)) (hex_digit (c % 16)) ≡ ok c
int16-digits c h = decodes_to-eq c _ (every_byte_lem _ 0 256 c digits_table (omega arith) h)

digit_ne_underscore : (n : ℕ) → n < 16 → (hex_digit n == b'_') ≡ false
unfolding hex_digit
digit_ne_underscore n h = ground arith

unescape_plain :
    (c : ℕ) (s : List ℕ)
    → (c == b'_') ≡ false
    → unescape (c ∷ s) ≡ bind (unescape s) (λ u. ok (c ∷ u))
unfolding unescape
unescape_plain c [] h = rw h
unescape_plain c (x ∷ []) h = rw h
unescape_plain c (x ∷ y ∷ s) h = rw h

unescape_underscore :
    (s : List ℕ) → unescape (b'_' ∷ b'_' ∷ s) ≡ bind (unescape s) (λ u. ok (b'_' ∷ u))
unfolding unescape
unescape_underscore [] = refl
unescape_underscore (y ∷ s) = refl

unescape_digits :
    (c : ℕ) (s : List ℕ)
    → c < 256
    → unescape (b'_' ∷ hex_digit (c / 16) ∷ hex_digit (c % 16) ∷ s)
      ≡ bind (unescape s) (λ u. ok (c ∷ u))
unfolding unescape
unescape_digits c s h = rw (digit_ne_underscore (c / 16) (omega arith)) (rw (int16-digits c h))

abbrev pub IsByte : ℕ → Type 0
IsByte c = c < 256

unescape-encode_byte :
    (c : ℕ) (s : List ℕ)
    → c < 256
    → unescape (encode_byte c ++ s) ≡ bind (unescape s) (λ u. ok (c ∷ u))
unfolding encode_byte
unescape-encode_byte c s h = elim (Bool-cases (c == b'_')) [
  | inl e ↦ rw e (rw ((==_iff c b'_').0 e) (unescape_underscore s))
  | inr n ↦ rw n (elim (Bool-cases (is_plain c)) [
    | inl p ↦ rw p (unescape_plain c s n)
    | inr q ↦ rw q (unescape_digits c s h)
  ])
]

prepend : List ℕ → Outcome (List ℕ) → Outcome (List ℕ)
prepend s r = bind r (λ u. ok (s ++ u))

prepend-cons :
    (c : ℕ) (s : List ℕ) (r : Outcome (List ℕ))
    → bind (prepend s r) (λ u. ok (c ∷ u)) ≡ prepend (c ∷ s) r
unfolding prepend
prepend-cons c s (ok u) = refl
prepend-cons c s (raised e) = refl

prepend-nil : (r : Outcome (List ℕ)) → r ≡ prepend [] r
unfolding prepend
prepend-nil (ok u) = refl
prepend-nil (raised e) = refl

unescape-encode_bytes_append :
    (s t : List ℕ) → All IsByte s → unescape (encode_bytes s ++ t) ≡ prepend s (unescape t)
unfolding encode_bytes
unescape-encode_bytes_append [] t h = prepend-nil (unescape t)
unescape-encode_bytes_append (c ∷ s) t h = rw append_assoc (
    unescape-encode_byte c (encode_bytes s ++ t) h.0
    ∙ ap (λ r. bind r (λ u. ok (c ∷ u))) (unescape-encode_bytes_append s t h.1)
    ∙ prepend-cons c s (unescape t))

unescape-encode_bytes : (s : List ℕ) → All IsByte s → unescape (encode_bytes s) ≡ ok s
unfolding prepend unescape
unescape-encode_bytes s h =
    ap unescape (sym (append-nil (encode_bytes s)))
    ∙ unescape-encode_bytes_append s [] h
    ∙ ap ok (append-nil s)

encode_byte_plain : (c : ℕ) → is_plain c ≡ true → encode_byte c ≡ c ∷ []
unfolding encode_byte
encode_byte_plain c h = ground arith

plain_byte : (c : ℕ) → is_plain c ≡ true → c < 256
unfolding is_plain
plain_byte c h = ground arith

encode_byte-SectionByte : (c : ℕ) → c < 256 → All SectionByte (encode_byte c)
unfolding encode_byte
encode_byte-SectionByte c h = ground arith

encode_bytes-SectionByte : (s : List ℕ) → All IsByte s → All SectionByte (encode_bytes s)
unfolding encode_bytes
encode_bytes-SectionByte [] h = tt
encode_bytes-SectionByte (c ∷ s) h =
    All-append SectionByte (encode_byte c) (encode_bytes s) (encode_byte-SectionByte c h.0)
      (encode_bytes-SectionByte s h.1)

All-ascii : (s : List ℕ) → All SectionByte s → All (λ c. c < 0x80) s
All-ascii [] h = tt
All-ascii (c ∷ s) h = (h.0.1, All-ascii s h.1)

encode_bytes_valid : (s : List ℕ) → All IsByte s → is_utf8 (encode_bytes s) ≡ true
encode_bytes_valid s h =
    is_utf8_of_ascii (encode_bytes s) (All-ascii _ (encode_bytes-SectionByte s h))

encode-eq-encode_bytes :
    (s : List ℕ) → All IsByte s → is_utf8 s ≡ true → encode s ≡ ok (encode_bytes s)
unfolding encode decode_utf8
encode-eq-encode_bytes s h valid = rw (valid, encode_bytes_valid s h)

encode_surrogates : (s : List ℕ) → is_utf8 s ≡ false → encode s ≡ raised unicode_error
unfolding encode decode_utf8
encode_surrogates s invalid = rw invalid

-- `encode` raises UnicodeEncodeError for a text that has no form in UTF-8, and returns for every
-- other one; whenever it returns, all characters of the result are ASCII letters and digits, `.`,
-- `-` and `_`.
pub encode-SectionByte :
    (s : List ℕ)
    → All IsByte s
    → (is_utf8 s ≡ false → encode s ≡ raised unicode_error)
      × (is_utf8 s ≡ true → (out : List ℕ) × (encode s ≡ ok out) × All SectionByte out)
encode-SectionByte s h = (
  encode_surrogates s,
  λ valid. (encode_bytes s, encode-eq-encode_bytes s h valid, encode_bytes-SectionByte s h),
)

decode_loop-encode_bytes :
    (s : List ℕ) → All IsByte s → is_utf8 s ≡ true → decode_loop (encode_bytes s) ≡ ok s
unfolding decode_loop decode_utf8
decode_loop-encode_bytes s h valid =
    rw (encode_bytes_valid s h) (rw (unescape-encode_bytes s h) (rw valid))

-- Decoding the encoded form of a text that is valid UTF-8 gives the text back.
pub decode-encode : (s : List ℕ) → All IsByte s → is_utf8 s ≡ true → bind (encode s) decode ≡ ok s
decode-encode s h valid =
    rw (encode-eq-encode_bytes s h valid)
      (unfold decode in rw (decode_loop-encode_bytes s h valid, decode))

-- Two texts that are valid UTF-8 and have the same encoded form are the same text.
encode_injective :
    (s t : List ℕ)
    → All IsByte s
    → All IsByte t
    → is_utf8 s ≡ true
    → is_utf8 t ≡ true
    → encode s ≡ encode t
    → s ≡ t
encode_injective s t hs ht us ut e =
    ok_injective (sym (decode-encode s hs us) ∙ ap (λ r. bind r decode) e ∙ decode-encode t ht ut)

encode_bytes_plain : (s : List ℕ) → All (λ c. is_plain c ≡ true) s → encode_bytes s ≡ s
unfolding encode_bytes
encode_bytes_plain [] h = refl
encode_bytes_plain (c ∷ s) h =
    rw (encode_byte_plain c h.0) (ap (λ r. c ∷ r) (encode_bytes_plain s h.1))

All-IsByte_plain : (s : List ℕ) → All (λ c. is_plain c ≡ true) s → All IsByte s
All-IsByte_plain [] h = tt
All-IsByte_plain (c ∷ s) h = (plain_byte c h.0, All-IsByte_plain s h.1)

-- A text of characters that buildout allows, `_` aside, is its own encoded form.
encode_plain : (s : List ℕ) → All (λ c. is_plain c ≡ true) s → is_utf8 s ≡ true → encode s ≡ ok s
encode_plain s h valid =
    rw (encode-eq-encode_bytes s (All-IsByte_plain s h) valid) (ap ok (encode_bytes_plain s h))

decode_raises : (t : List ℕ) {e : Exc} → unescape t ≡ raised e → decode t ≡ raised value_error
unfolding decode decode_loop decode_utf8
decode_raises t h = elim (Bool-cases (is_utf8 t)) [
  | inl valid ↦ rw (valid, h, decode)
  | inr invalid ↦ rw (invalid, decode)
]

unescape_cut : (s : List ℕ) → prepend s (unescape (b'_' ∷ [])) ≡ raised value_error
unfolding prepend unescape
unescape_cut s = refl

unescape_cut_digit :
    (s : List ℕ) (x : ℕ)
    → (x == b'_') ≡ false
    → prepend s (unescape (b'_' ∷ x ∷ [])) ≡ raised value_error
unfolding prepend unescape
unescape_cut_digit s x n = rw n

-- Decoding raises ValueError for what is encoded, with an unfinished escape behind it: `_` alone,
-- or `_` and one character that is not `_`.
pub decode_truncated :
    (s : List ℕ) (x : ℕ)
    → All IsByte s
    → (x == b'_') ≡ false
    → (decode (encode_bytes s ++ b'_' ∷ []) ≡ raised value_error)
      × (decode (encode_bytes s ++ b'_' ∷ x ∷ []) ≡ raised value_error)
decode_truncated s x h n = (
  decode_raises (encode_bytes s ++ b'_' ∷ []) {e = value_error}
      (unescape-encode_bytes_append s (b'_' ∷ []) h ∙ unescape_cut s),
  decode_raises (encode_bytes s ++ b'_' ∷ x ∷ []) {e = value_error}
      (unescape-encode_bytes_append s (b'_' ∷ x ∷ []) h ∙ unescape_cut_digit s x n),
)
