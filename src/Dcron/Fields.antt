-- ===== src/Dcron/Fields.antt =====
-- Lemmas on the fields of a crontab line, slapos/recipe/dcron.py.
use native.Mathlib.Nat.{div-mul-le_self, mul-mod_left, add-sub_cancel_left, lt-div-mul-add}
use slapos_abilian_edge.Dcron.{
  line_of, in_range, one_part, two_parts, stepped, piece_parts, piece, get_or, pieces, field,
}
use slapos_abilian_edge.Base.{ℕ, ◌+◌, ◌-◌, ◌*◌, ◌/◌, ◌%◌, ◌≤◌, ◌<◌, ◌≡◌, refl, sym, ap, ◌≢◌, ◌⊎◌}
use slapos_abilian_edge.Base.{inl, inr, Option, none, some, List, [], ◌∷◌, ◌++◌, arith, Bool-cases}
use slapos_abilian_edge.Base.{All}
use slapos_abilian_edge.Base.Py.{ok, bind-eq-ok, ok_injective}
use slapos_abilian_edge.Base.Text.{Text, codes, text_eq, text_eq_iff, split_on, split_first, join}
use slapos_abilian_edge.Base.Text.{ℤ, pos, negsuc, int, show}

-- What a field of the crontab line may be: `*`, the field as it was given with each of its pieces
-- in range, or a range of steps within the values of the field.
abbrev pub InRange : ℕ → ℕ → Text → Type 0
InRange y z p =
    (split_first b'/' p ≡ none) × ((n : ℕ) × (int p ≡ some (pos n)) × (y ≤ n) × (n < y + z))

-- The piece is `n/b`, and the text the range with all the values `n`, `n + b`, ... of the field.
abbrev IsSteps : ℕ → ℕ → Text → Text → Type 0
IsSteps y z p r =
    (n hi b : ℕ) × (start step : Text) × (split_first b'/' p ≡ some (start, step))
    × (int start ≡ some (pos n))
    × (int step ≡ some (pos b))
    × (r ≡ show n ++ (b'-' ∷ (show hi ++ (b'/' ∷ show b))))
    × (y ≤ n)
    × (n < hi)
    × (hi < y + z)
    × (y + z ≤ hi + b)
    × ((hi - n) % b ≡ 0)

abbrev PieceResult : ℕ → ℕ → Text → Option Text → Type 0
PieceResult y z p none = InRange y z p
PieceResult y z p (some r) = IsSteps y z p r

stepped-pos : (y z n b : ℕ) (r : Text) → stepped y z n b ≡ ok (some r) → 0 < b
unfolding stepped
stepped-pos y z n b r e = ground arith

stepped-IsSteps :
    (y z n b : ℕ) (p start step r : Text)
    → split_first b'/' p ≡ some (start, step)
    → int start ≡ some (pos n)
    → int step ≡ some (pos b)
    → y ≤ n
    → n < y + z
    → stepped y z n b ≡ ok (some r)
    → IsSteps y z p r
unfolding stepped
stepped-IsSteps y z n b p start step r cut is_start is_step h k e = (
  n,
  n + (z - (n - y) - 1) / b * b,
  b,
  start,
  step,
  cut,
  is_start,
  is_step,
  ground arith,
  h,
  ground arith,
  ground (arith, div-mul-le_self (z - (n - y) - 1) b),
  ground (arith, lt-div-mul-add {a = z - (n - y) - 1} {b = b} (stepped-pos y z n b r e)),
  rw (add-sub_cancel_left n ((z - (n - y) - 1) / b * b)) (mul-mod_left ((z - (n - y) - 1) / b) b),
)

stepped-ne-none : (y z n b : ℕ) → stepped y z n b ≢ ok none
unfolding stepped
stepped-ne-none y z n b e = ground arith

one_part-none :
    (y z : ℕ) (o : Option ℤ)
    → one_part y z o ≡ ok none
    → (n : ℕ) × (o ≡ some (pos n)) × (y ≤ n) × (n < y + z)
unfolding one_part in_range
one_part-none y z none e = cc
one_part-none y z (some (pos n)) e = (n, refl, ground arith, ground arith)
one_part-none y z (some (negsuc n)) e = cc

one_part-ne-some : (y z : ℕ) (o : Option ℤ) (r : Text) → one_part y z o ≢ ok (some r)
unfolding one_part in_range
one_part-ne-some y z none r e = cc
one_part-ne-some y z (some (pos n)) r e = ground arith
one_part-ne-some y z (some (negsuc n)) r e = cc

two_parts-IsSteps :
    (y z : ℕ) (p start step : Text) (o q : Option ℤ) (r : Text)
    → split_first b'/' p ≡ some (start, step)
    → int start ≡ o
    → int step ≡ q
    → two_parts y z o q ≡ ok (some r)
    → IsSteps y z p r
unfolding two_parts in_range
two_parts-IsSteps y z p start step (some (pos n)) (some (pos b)) r cut is_start is_step e =
    stepped-IsSteps y z n b p start step r cut is_start is_step (ground arith) (ground arith)
      (ground arith)
two_parts-IsSteps y z p start step _ _ r cut is_start is_step e = cc

two_parts-ne-none : (y z : ℕ) (o q : Option ℤ) → two_parts y z o q ≢ ok none
unfolding two_parts
two_parts-ne-none y z (some (pos n)) (some (pos b)) e = ground (arith, stepped-ne-none y z n b)
two_parts-ne-none y z _ _ e = cc

piece_parts-PieceResult :
    (y z : ℕ) (p : Text) (parts : Option (Text × Text)) (r : Option Text)
    → split_first b'/' p ≡ parts
    → piece_parts y z p parts ≡ ok r
    → PieceResult y z p r
unfolding piece_parts
piece_parts-PieceResult y z p none none h e = (h, one_part-none y z (int p) e)
piece_parts-PieceResult y z p none (some r) h e = absurd (one_part-ne-some y z (int p) r e)
piece_parts-PieceResult y z p (some (n, b)) none h e =
    absurd (two_parts-ne-none y z (int n) (int b) e)
piece_parts-PieceResult y z p (some (n, b)) (some r) h e =
    two_parts-IsSteps y z p n b (int n) (int b) r h refl refl e

piece-PieceResult :
    (y z : ℕ) (p : Text) (r : Option Text) → piece y z p ≡ ok r → PieceResult y z p r
unfolding piece
piece-PieceResult y z p r e = piece_parts-PieceResult y z p (split_first b'/' p) r refl e

-- The field as it was, all its pieces being numbers in range; or the steps of its last piece with
-- a step.
abbrev pub FieldResult : ℕ → ℕ → Text → List Text → Text → Type 0
FieldResult y z cur xs r =
    ((r ≡ cur) × All (InRange y z) xs)
    ⊎ ((before after : List Text) × (p : Text) × (xs ≡ before ++ p ∷ after)
        × IsSteps y z p r
        × All (λ q. (o : Option Text) × PieceResult y z q o) before
        × All (InRange y z) after)

module _ (y z : ℕ) where
  pieces-cons :
      (cur p : Text) (ps : List Text) (r : Text) (o : Option Text)
      → PieceResult y z p o
      → FieldResult y z (get_or cur o) ps r
      → FieldResult y z cur (p ∷ ps) r
  pieces-cons cur p ps r none h (inl (e, all)) = inl (e, (h, all))
  pieces-cons cur p ps r (some new) h (inl (e, all)) = inr ([], ps, p, refl, rw e h, tt, all)
  pieces-cons cur p ps r o h (inr (before, after, q, e, st, some_before, all_after)) =
      inr (p ∷ before, after, q, ap (λ l. p ∷ l) e, st, ((o, h), some_before), all_after)

  pieces-FieldResult :
      (cur : Text) (ps : List Text) (r : Text) → pieces y z cur ps ≡ ok r → FieldResult y z cur ps r
  unfolding pieces
  pieces-FieldResult cur [] r e = inl (ground arith, tt)
  pieces-FieldResult cur (p ∷ ps) r e =
      let (o, h, k) = bind-eq-ok (piece y z p) (λ o. pieces y z (get_or cur o) ps) e in
      pieces-cons cur p ps r o (piece-PieceResult y z p o h)
        (pieces-FieldResult (get_or cur o) ps r k)

InRange-piece : (y z : ℕ) (p : Text) → InRange y z p → piece y z p ≡ ok none
unfolding piece piece_parts one_part in_range
InRange-piece y z p (nosep, (n, i, lo, hi)) = rw nosep (rw i (ground arith))

-- What `systemd_to_cron` accepts for a field is left as it was, and is `*` or a list of numbers
-- that the field can have, or becomes the range of steps that its last piece with a step stands
-- for.
field-FieldResult :
    (y z : ℕ) (x r : Text)
    → field y z x ≡ ok r
    → ((x ≡ codes "*") × (r ≡ x)) ⊎ FieldResult y z x (split_on b',' x) r
unfolding field
field-FieldResult y z x r e = elim (Bool-cases (text_eq x (codes "*"))) [
  | inl star ↦ inl ((text_eq_iff x (codes "*")).0 star, ground arith)
  | inr other ↦ inr (pieces-FieldResult y z x (split_on b',' x) r (ground arith))
]

-- A piece with a step takes the place of the whole field: a number that the list gives before it
-- is accepted and does not come back in the field.
pieces_step :
    (y z : ℕ) (cur p q r : Text)
    → InRange y z p
    → piece y z q ≡ ok (some r)
    → pieces y z cur (p ∷ q ∷ []) ≡ ok r
pieces_step y z cur p q r h e = unfold pieces in rw (InRange-piece y z p h) (rw e)

abbrev pub FieldOf : ℕ → ℕ → Text → Text → Type 0
FieldOf y z x r = ((x ≡ codes "*") × (r ≡ x)) ⊎ FieldResult y z x (split_on b',' x) r

abbrev pub LineOf : (dow month day hour minute line : Text) → Type 0
LineOf dow month day hour minute line =
    (mi ho da mo : Text) × (line ≡ join (codes " ") (mi ∷ ho ∷ da ∷ mo ∷ dow ∷ []))
    × FieldOf 0 60 minute mi
    × FieldOf 0 24 hour ho
    × FieldOf 1 31 day da
    × FieldOf 1 12 month mo

pub line_of-LineOf :
    (dow month day hour minute line : Text)
    → line_of dow (month, day) (hour, minute) ≡ ok line
    → LineOf dow month day hour minute line
unfolding line_of
line_of-LineOf dow month day hour minute line e =
    let (mi, h1, e1) = bind-eq-ok (field 0 60 minute) _ e in
    let (ho, h2, e2) = bind-eq-ok (field 0 24 hour) _ e1 in
    let (da, h3, e3) = bind-eq-ok (field 1 31 day) _ e2 in
    let (mo, h4, e4) = bind-eq-ok (field 1 12 month) _ e3 in
    (
      mi,
      ho,
      da,
      mo,
      sym (ok_injective e4),
      field-FieldResult 0 60 minute mi h1,
      field-FieldResult 0 24 hour ho h2,
      field-FieldResult 1 31 day da h3,
      field-FieldResult 1 12 month mo h4,
    )
