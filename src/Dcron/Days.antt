-- ===== src/Dcron/Days.antt =====
-- Lemmas on the days of the week of a calendar specification, slapos/recipe/dcron.py.
use slapos_abilian_edge.Dcron.{day_names, day_number, day_range, day_ranges, take_dow}
use slapos_abilian_edge.Base.{ℕ, suc, ◌+◌, ◌<◌, ◌≡◌, refl, sym, ◌⊎◌, inl, inr, ◌||◌, Option, none}
use slapos_abilian_edge.Base.{some, List, [], ◌∷◌, ◌++◌, arith, Bool-cases, length, take, All}
use slapos_abilian_edge.Base.Py.{Outcome, ok, raised, bind, bind-eq-ok, ok_injective}
use slapos_abilian_edge.Base.Text.{sort_texts, All-sort_texts, Text, codes, text_eq, split_on}
use slapos_abilian_edge.Base.Text.{split_first, join, lower, show}

-- A day of the week by its number from 0 to 6, or a range of two such days.
pub IsDays : Text → Type 0
IsDays d =
    ((n : ℕ) × (d ≡ show n) × (n < 7))
    ⊎ ((m n : ℕ) × (d ≡ show m ++ (b'-' ∷ show n)) × (m < 7) × (n < 7))

-- The field for the days of the week: `*`, or days separated by commas; there may be none.
pub IsDow : Text → Type 0
IsDow dow = (dow ≡ codes "*") ⊎ ((ds : List Text) × (dow ≡ join (codes ",") ds) × All IsDays ds)

day_number-lt :
    (names : List Text) (k : ℕ) (name : Text) (n : ℕ)
    → day_number names k name ≡ ok n
    → n < k + length names
unfolding day_number
day_number-lt [] k name n e = cc
day_number-lt (d ∷ ds) k name n e = elim (Bool-cases (text_eq name d || text_eq name (take 3 d))) [
  | inl h ↦ let q : k ≡ n = ok_injective (rw h at e) in omega (arith, q)
  | inr h ↦ let q = day_number-lt ds (suc k) name n (rw h at e) in omega (arith, q)
]

day_range-IsDays : (x d : Text) → day_range x ≡ ok d → IsDays d
unfolding day_range IsDays
day_range-IsDays x d e = go (split_first b'-' x) e
  where
    go :
        (o : Option (Text × Text))
        → (elim o as (λ _. Outcome Text) [
          | none ↦ bind (day_number day_names 0 (lower x)) (λ n. ok (show n))
          | some (l, r) ↦
              bind
                (day_number day_names 0 (lower l))
                (λ m. bind (day_number day_names 0 (lower r)) (λ n. ok (show m ++ (b'-' ∷ show n))))
        ])
          ≡ ok d
        → IsDays d
    go none h =
        let (n, h1, e1) = bind-eq-ok (day_number day_names 0 (lower x)) _ h in
        inl (n, sym (ok_injective e1), day_number-lt day_names 0 (lower x) n h1)
    go (some (l, r)) h =
        let (m, h1, e1) = bind-eq-ok (day_number day_names 0 (lower l)) _ h in
        let (n, h2, e2) = bind-eq-ok (day_number day_names 0 (lower r)) _ e1 in
        inr (
          m,
          n,
          sym (ok_injective e2),
          day_number-lt day_names 0 (lower l) m h1,
          day_number-lt day_names 0 (lower r) n h2,
        )

day_ranges-IsDays : (xs ds : List Text) → day_ranges xs ≡ ok ds → All IsDays ds
unfolding day_ranges
day_ranges-IsDays [] ds e = rw (← (ok_injective e)) tt
day_ranges-IsDays ([] ∷ xs) ds e = day_ranges-IsDays xs ds e
day_ranges-IsDays ((c ∷ x) ∷ xs) ds e =
    let (d, h1, e1) = bind-eq-ok (day_range (c ∷ x)) _ e in
    let (rest, h2, e2) = bind-eq-ok (day_ranges xs) _ e1 in
    rw (← (ok_injective e2)) (day_range-IsDays (c ∷ x) d h1, day_ranges-IsDays xs rest h2)

pub take_dow-IsDow : (words : List Text) → IsDow (take_dow words).0
unfolding take_dow IsDow
take_dow-IsDow [] = inl refl
take_dow-IsDow (w ∷ ws) = go (day_ranges (split_on b',' w)) refl
  where
    go :
        (o : Outcome (List Text))
        → day_ranges (split_on b',' w) ≡ o
        → IsDow
            (elim o as (λ _. Text × List Text) [
              | ok days ↦ (join (codes ",") (sort_texts days), ws)
              | raised _ ↦ (codes "*", w ∷ ws)
            ]).0
    go (ok days) e = inr (
      sort_texts days,
      refl,
      All-sort_texts IsDays days (day_ranges-IsDays (split_on b',' w) days e),
    )
    go (raised x) e = inl refl
