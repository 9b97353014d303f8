-- ===== src/Xbuildout.antt =====
-- software/simpleran/ru/xbuildout.py: names of buildout sections from arbitrary text.
-- A Python string stands as the list of the bytes of its form in UTF-8 in which lone surrogates
-- have three bytes too ('surrogatepass'). `is_utf8` is the test that `bytes.decode('utf-8')` makes;
-- since it refuses surrogates, it tells as well on which strings `str.encode('utf-8')` raises.
mod Utf8
pub mod Laws
mod Tests
use slapos_abilian_edge.Base.{ℕ, ◌+◌, ◌-◌, ◌*◌, ◌/◌, ◌%◌, Bool, ◌&&◌, ◌||◌, Option, none, some}
use slapos_abilian_edge.Base.{List, [], ◌∷◌, ◌++◌, ltb, leb, ◌==◌, if◌then◌else◌}
use slapos_abilian_edge.Base.Py.{value_error, unicode_error, plain, Outcome, ok, raised, bind}
unfoldable pub use Utf8.{is_utf8}
pub use Utf8.{is_utf8_of_ascii}

-- The bytes that go as they are; `_` is the escape.
unfoldable pub is_plain : ℕ → Bool
is_plain c =
    leb b'a' c && leb c b'z'
    || (leb b'A' c && leb c b'Z' || (leb b'0' c && leb c b'9' || (c == b'.' || c == b'-')))

-- One digit of `%02x`.
unfoldable pub hex_digit : ℕ → ℕ
hex_digit n = if ltb n 10 then b'0' + n else 87 + n

unfoldable pub encode_byte : ℕ → List ℕ
unfolding is_plain hex_digit
encode_byte c =
    if c == b'_'
    then b'_' ∷ b'_' ∷ []
    else if is_plain c
    then c ∷ []
    else b'_' ∷ hex_digit (c / 16) ∷ hex_digit (c % 16) ∷ []

unfoldable pub encode_bytes : List ℕ → List ℕ
unfolding encode_byte
encode_bytes [] = []
encode_bytes (c ∷ s) = encode_byte c ++ encode_bytes s

-- `out.decode('utf-8')`, and `s.encode('utf-8')` for the strings that stand so.
unfoldable pub decode_utf8 : List ℕ → Outcome (List ℕ)
unfolding is_utf8
decode_utf8 out = if is_utf8 out then ok out else raised unicode_error

unfoldable pub encode : List ℕ → Outcome (List ℕ)
unfolding encode_bytes decode_utf8
encode s = bind (decode_utf8 s) λ bytes. decode_utf8 (encode_bytes bytes)

unfoldable pub hex_value : ℕ → Option ℕ
hex_value c =
    if leb b'0' c && leb c b'9'
    then some (c - b'0')
    else if leb b'a' c && leb c b'f'
    then some (c - 87)
    else if leb b'A' c && leb c b'F'
    then some (c - 55)
    else none

is_space : ℕ → Bool
is_space c = c == b' ' || leb 9 c && leb c 13

-- `int(x, 16)` for one digit `j` behind the byte `x`: a sign or a space may stand there.
-- `bytes([i])` refuses what is below 0, and `-0` is 0.
two_digits : ℕ → ℕ → Option ℕ → Outcome ℕ
two_digits x j (some i) = ok (16 * i + j)
two_digits x j none =
    if is_space x || x == b'+'
    then ok j
    else if x == b'-' && j == 0
    then ok 0
    else raised value_error

one_digit : Option ℕ → Outcome ℕ
one_digit (some i) = ok i
one_digit none = raised value_error

-- `i = int(x, 16); bytes([i])` for the two bytes `x y`.
unfoldable pub int16 : ℕ → ℕ → Outcome ℕ
unfolding hex_value is_space two_digits one_digit
int16 x y = elim (hex_value y) [
  | some j ↦ two_digits x j (hex_value x)
  | none ↦ if is_space y then one_digit (hex_value x) else raised value_error
]

abbrev emit : ℕ → Outcome (List ℕ) → Outcome (List ℕ)
emit c rest = bind rest (λ out. ok (c ∷ out))

-- The loop of `_decode`; a truncated or malformed escape raises `ValueError`.
unfoldable pub unescape : List ℕ → Outcome (List ℕ)
unfolding int16
unescape [] = ok []
unescape (c ∷ []) = if c == b'_' then raised value_error else ok (c ∷ [])
unescape (c ∷ x ∷ []) =
    let after = unescape (x ∷ []) in
    if c == b'_' then (if x == b'_' then ok (b'_' ∷ []) else raised value_error) else emit c after
unescape (c ∷ x ∷ y ∷ s) =
    let plain = emit c (unescape (x ∷ y ∷ s)) in
    let underscore = emit b'_' (unescape (y ∷ s)) in
    let escaped = bind (int16 x y) (λ i. emit i (unescape s)) in
    if c == b'_' then (if x == b'_' then underscore else escaped) else plain

unfoldable pub decode_loop : List ℕ → Outcome (List ℕ)
unfolding unescape decode_utf8
decode_loop s = bind (decode_utf8 s) λ bytes. bind (unescape bytes) decode_utf8

-- Whatever `_decode` raises becomes a `ValueError`.
unfoldable pub decode : List ℕ → Outcome (List ℕ)
unfolding decode_loop
decode s = elim (decode_loop s) [ ok out ↦ ok out | raised _ ↦ raised value_error ]
