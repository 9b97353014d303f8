-- ===== src/Base/Text.antt =====
-- Texts as lists of code points, for code that walks, splits and joins them, and Python's
-- methods of `str` on them. Letters and digits are those of ASCII.
use slapos_abilian_edge.Base.{ℕ, zero, suc, ◌+◌, ◌-◌, ◌*◌, ◌/◌, ◌%◌, String, ◌≡◌, refl, ◌↔◌, inl}
use slapos_abilian_edge.Base.{inr, Bool, true, false, ◌&&◌, ◌||◌, Option, none, some, List, [], ◌∷◌}
use slapos_abilian_edge.Base.{◌++◌, arith, ltb, leb, ◌==◌, if◌then◌else◌, Bool-cases, All}
use Prim.Native.Char.{code}

abbrev pub Text : Type 0
Text = List ℕ

abbrev pub codes : String → Text
codes String.[] = []
codes (String.◌∷◌ c s) = code c ∷ codes s

unfoldable pub text_eq : Text → Text → Bool
text_eq [] [] = true
text_eq [] (d ∷ t) = false
text_eq (c ∷ s) [] = false
text_eq (c ∷ s) (d ∷ t) = c == d && text_eq s t

pub text_eq_iff : (s t : Text) → (text_eq s t ≡ true) ↔ (s ≡ t)
unfolding text_eq
text_eq_iff [] [] = (λ _. refl, λ _. refl)
text_eq_iff [] (d ∷ t) = (λ h. cc, λ h. cc)
text_eq_iff (c ∷ s) [] = (λ h. cc, λ h. cc)
text_eq_iff (c ∷ s) (d ∷ t) = ground (arith, text_eq_iff s t)

-- `str.isspace` for one code point.
unfoldable pub is_white : ℕ → Bool
is_white c =
    c == b' '
    || (leb 9 c && leb c 13
        || (leb 0x1c c && leb c 0x1f
            || (c == 0x85
                || (c == 0xa0
                    || (c == 0x1680
                        || (leb 0x2000 c && leb c 0x200a
                            || (c == 0x2028
                                || (c == 0x2029
                                    || (c == 0x202f || (c == 0x205f || c == 0x3000))))))))))

unfoldable pub lstrip : Text → Text
unfolding is_white
lstrip [] = []
lstrip (c ∷ s) = let rest = lstrip s in if is_white c then rest else c ∷ s

unfoldable pub rstrip : Text → Text
unfolding is_white
rstrip [] = []
rstrip (c ∷ s) =
    let rest = rstrip s in elim rest [ [] ↦ if is_white c then [] else c ∷ [] | d ∷ t ↦ c ∷ d ∷ t ]

-- `s.strip()`
unfoldable pub strip : Text → Text
unfolding lstrip rstrip
strip s = rstrip (lstrip s)

abbrev push : ℕ → List Text → List Text
push c [] = (c ∷ []) ∷ []
push c (w ∷ ws) = (c ∷ w) ∷ ws

-- `s.split(sep)` for a separator of one character.
unfoldable pub split_on : ℕ → Text → List Text
split_on sep [] = [] ∷ []
split_on sep (c ∷ s) = let rest = split_on sep s in if c == sep then [] ∷ rest else push c rest

-- `s.split(sep, 1)`, where `none` says that the separator is not there.
unfoldable pub split_first : ℕ → Text → Option (Text × Text)
split_first sep [] = none
split_first sep (c ∷ s) =
    let rest = split_first sep s in
    if c == sep then some ([], s) else elim rest [ none ↦ none | some (l, r) ↦ some (c ∷ l, r) ]

-- `sep.join(words)`
unfoldable pub join : Text → List Text → Text
join sep [] = []
join sep (w ∷ []) = w
join sep (w ∷ v ∷ ws) = w ++ (sep ++ join sep (v ∷ ws))

-- `s.lower()`
unfoldable pub lower : Text → Text
lower [] = []
lower (c ∷ s) = (if leb b'A' c && leb c b'Z' then c + 32 else c) ∷ lower s

unfoldable pub has_char : ℕ → Text → Bool
has_char x [] = false
has_char x (c ∷ s) = c == x || has_char x s

-- `s.startswith(t)`
unfoldable pub starts : Text → Text → Bool
starts s [] = true
starts [] (d ∷ t) = false
starts (c ∷ s) (d ∷ t) = c == d && starts s t

-- `negsuc n` is -(n + 1).
pub data ℤ : Type 0 where
  pos : ℕ → ℤ
  negsuc : ℕ → ℤ

abbrev negated : ℕ → ℤ
negated zero = pos zero
negated (suc n) = negsuc n

-- The digits of `int(s)`: single underscores may stand between digits.
int_digits : ℕ → Bool → Text → Option ℕ
int_digits acc true [] = some acc
int_digits acc false [] = none
int_digits acc seen (c ∷ s) =
    let next = int_digits (acc * 10 + (c - b'0')) true s in
    let under = int_digits acc false s in
    if leb b'0' c && leb c b'9' then next else if c == b'_' && seen then under else none

signed : Text → Option ℤ
unfolding int_digits
signed [] = none
signed (c ∷ s) =
    if c == b'-'
    then elim (int_digits 0 false s) [ none ↦ none | some n ↦ some (negated n) ]
    else if c == b'+'
    then elim (int_digits 0 false s) [ none ↦ none | some n ↦ some (pos n) ]
    else elim (int_digits 0 false (c ∷ s)) [ none ↦ none | some n ↦ some (pos n) ]

-- `int(s)`, where `none` stands for its `ValueError`.
unfoldable pub int : Text → Option ℤ
unfolding signed strip
int s = signed (strip s)

show_loop : ℕ → ℕ → Text → Text
show_loop zero n acc = acc
show_loop (suc fuel) n acc =
    let more = show_loop fuel (n / 10) ((b'0' + n % 10) ∷ acc) in
    if ltb n 10 then (b'0' + n) ∷ acc else more

-- `str(n)`. A number has fewer digits than its value and one.
unfoldable pub show : ℕ → Text
unfolding show_loop
show n = show_loop (suc n) n []

-- The order of `sorted` on texts.
unfoldable pub text_le : Text → Text → Bool
text_le [] t = true
text_le (c ∷ s) [] = false
text_le (c ∷ s) (d ∷ t) = if c == d then text_le s t else ltb c d

insert_sorted : Text → List Text → List Text
insert_sorted w [] = w ∷ []
insert_sorted w (v ∷ vs) = if text_le w v then w ∷ v ∷ vs else v ∷ insert_sorted w vs

-- `sorted(words)`
unfoldable pub sort_texts : List Text → List Text
unfolding insert_sorted text_le
sort_texts [] = []
sort_texts (w ∷ ws) = insert_sorted w (sort_texts ws)

All-insert_sorted {ℓ} :
    (P : Text → Type ℓ) (w : Text) (ws : List Text) → P w → All P ws → All P (insert_sorted w ws)
unfolding insert_sorted
All-insert_sorted P w [] h hs = (h, tt)
All-insert_sorted P w (v ∷ vs) h hs = elim (Bool-cases (text_le w v)) [
  | inl e ↦ rw e (h, hs)
  | inr n ↦ rw n (hs.0, All-insert_sorted P w vs h hs.1)
]

pub All-sort_texts {ℓ} : (P : Text → Type ℓ) (ws : List Text) → All P ws → All P (sort_texts ws)
unfolding sort_texts
All-sort_texts P [] h = tt
All-sort_texts P (w ∷ ws) h = All-insert_sorted P w (sort_texts ws) h.0 (All-sort_texts P ws h.1)

unfoldable pub print : ℤ → Text
print (pos n) = show n
print (negsuc n) = b'-' ∷ show (suc n)
