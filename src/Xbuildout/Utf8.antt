-- ===== src/Xbuildout/Utf8.antt =====
-- The validity test of `bytes.decode('utf-8')`, as the automaton of the well-formed byte
-- sequences: no overlong forms, no surrogates, nothing above U+10FFFF.
use slapos_abilian_edge.Base.{ℕ, ◌≡◌, refl, ◌<◌, Bool, true, false, ◌&&◌, List, [], ◌∷◌, leb}
use slapos_abilian_edge.Base.{ltb, ◌==◌, arith, All, if◌then◌else◌}

-- What the next bytes of the current character have to be.
pub data Need : Type 0 where
  start one two three bad : Need
  within : ℕ → ℕ → Need → Need

abbrev between : ℕ → ℕ → ℕ → Bool
between lo hi c = leb lo c && leb c hi

lead : ℕ → Need
lead c =
    if ltb c 0x80
    then start
    else if between 0xc2 0xdf c
    then one
    else if c == 0xe0
    then within 0xa0 0xbf one
    else if c == 0xed
    then within 0x80 0x9f one
    else if between 0xe1 0xef c
    then two
    else if c == 0xf0
    then within 0x90 0xbf two
    else if c == 0xf4
    then within 0x80 0x8f two
    else if between 0xf1 0xf3 c
    then three
    else bad

utf8_step : Need → ℕ → Need
unfolding lead
utf8_step start c = lead c
utf8_step one c = if between 0x80 0xbf c then start else bad
utf8_step two c = if between 0x80 0xbf c then one else bad
utf8_step three c = if between 0x80 0xbf c then two else bad
utf8_step (within lo hi next) c = if between lo hi c then next else bad
utf8_step bad c = bad

utf8_from : Need → List ℕ → Bool
utf8_from start [] = true
utf8_from _ [] = false
utf8_from need (c ∷ s) = utf8_from (utf8_step need c) s

unfoldable pub is_utf8 : List ℕ → Bool
unfolding utf8_from utf8_step
is_utf8 s = utf8_from start s

utf8_ascii : (s : List ℕ) → All (λ c. c < 0x80) s → utf8_from start s ≡ true
unfolding utf8_from utf8_step
utf8_ascii [] h = refl
utf8_ascii (c ∷ s) h = ground (arith, utf8_ascii s h.1)

-- Text in ASCII decodes.
pub is_utf8_of_ascii : (s : List ℕ) → All (λ c. c < 0x80) s → is_utf8 s ≡ true
unfolding is_utf8
is_utf8_of_ascii s h = utf8_ascii s h
