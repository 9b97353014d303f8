-- ===== src/Xbuildout/Tests.antt =====
-- Section names at concrete texts.
use slapos_abilian_edge.Base.{ℕ, ◌≡◌, refl, true, false, List, [], ◌∷◌, ◌++◌, arith, All}
use slapos_abilian_edge.Base.Py.{value_error, unicode_error, ok, raised, bind}
use slapos_abilian_edge.Base.Text.{codes}
use slapos_abilian_edge.Xbuildout.{encode, encode_bytes, decode, is_utf8}
use slapos_abilian_edge.Xbuildout.Laws.{
  SectionByte, IsByte, encode-SectionByte, decode-encode, decode_truncated,
}

-- The bytes of `é_1`
abbrev name : List ℕ
name = 195 ∷ 169 ∷ 95 ∷ 49 ∷ []

name-IsByte : All IsByte name
name-IsByte = (omega arith, (omega arith, (omega arith, (omega arith, tt))))

name_valid : is_utf8 name ≡ true
unfolding is_utf8
name_valid = refl

name_encoded : encode name ≡ ok (codes "_c3_a9__1")
unfolding encode
name_encoded = refl

-- A lone surrogate, U+D800.
surrogate_raises : encode (237 ∷ 160 ∷ 128 ∷ []) ≡ raised unicode_error
unfolding encode
surrogate_raises = refl

encode-SectionByte_example :
    (is_utf8 name ≡ false → encode name ≡ raised unicode_error)
    × (is_utf8 name ≡ true → (out : List ℕ) × (encode name ≡ ok out) × All SectionByte out)
encode-SectionByte_example = encode-SectionByte name name-IsByte

decode-encode_example : bind (encode name) decode ≡ ok name
decode-encode_example = decode-encode name name-IsByte name_valid

decode_truncated_example :
    (decode (encode_bytes name ++ 95 ∷ []) ≡ raised value_error)
    × (decode (encode_bytes name ++ 95 ∷ 99 ∷ []) ≡ raised value_error)
decode_truncated_example = decode_truncated name 99 name-IsByte refl
