-- ===== src/FreePort/Laws.antt =====
-- Lemmas on the search of slapos/recipe/free_port.py.
use slapos_abilian_edge.Base.{ℕ, zero, suc, ◌+◌, ◌-◌, ◌≤◌, ◌<◌, ◌≡◌, refl, sym, ◌⊎◌, inl, inr}
use slapos_abilian_edge.Base.{arith, ◌==◌, ==_iff, Bool-cases}
use slapos_abilian_edge.Base.Py.{os_error, Outcome, ok, raised, ok_injective}
use slapos_abilian_edge.Base.Text.{ℤ, pos}
use slapos_abilian_edge.FreePort.{get_free_port, range, count_up, distance, next}

lt_absurd : (a m : ℕ) → a ≤ m → ¬ (m < a)
lt_absurd a m h k = omega arith

le-cases : (a m : ℕ) → a ≤ m → (m ≡ a) ⊎ (suc a ≤ m)
le-cases a m h = elim (Bool-cases (m == a)) [
  | inl c ↦ inl ((==_iff m a).0 c)
  | inr c ↦ inr (ground (arith, ==_iff m a))
]

module _ (bind_port : ℤ → Outcome (Unit {0})) where
  -- The socket module refused the port.
  abbrev pub Refused : ℕ → Type 0
  Refused port = (n : ℕ) × (bind_port (pos port) ≡ raised (os_error n))

  abbrev pub AllRefused : ℕ → ℕ → Type 0
  AllRefused a b = (m : ℕ) → a ≤ m → m < b → Refused m

  -- A search among the ports from `a` to below `b` gave the smallest that can be bound.
  abbrev pub Smallest : ℕ → ℕ → ℤ → Type 0
  Smallest a b p =
      (n : ℕ) × (p ≡ pos n) × (a ≤ n) × (n < b) × (bind_port (pos n) ≡ ok tt) × AllRefused a n

  AllRefused-step : (a b : ℕ) → Refused a → AllRefused (suc a) b → AllRefused a b
  AllRefused-step a b r all m lo hi = elim (le-cases a m lo) [ inl e ↦ rw e r | inr l ↦ all m l hi ]

  count_up-Smallest :
      (n a : ℕ) (p : ℤ)
      → get_free_port bind_port (count_up n (pos a)) ≡ ok p
      → Smallest a (a + n) p ⊎ ((p ≡ pos 0) × AllRefused a (a + n))
  unfolding get_free_port count_up next
  count_up-Smallest zero a p h =
      inr (sym (ok_injective h), λ m lo hi. elim (lt_absurd a m lo (omega arith)) [ ])
  count_up-Smallest (suc n) a p h = go (bind_port (pos a)) refl h (count_up-Smallest n (suc a) p)
    where
      go :
          (o : Outcome (Unit {0}))
          → bind_port (pos a) ≡ o
          → (elim o as (λ _. Outcome ℤ) [
            | ok _ ↦ ok (pos a)
            | raised (os_error _) ↦ get_free_port bind_port (count_up n (pos (suc a)))
            | raised e ↦ raised e
          ])
            ≡ ok p
          → (get_free_port bind_port (count_up n (pos (suc a))) ≡ ok p
              → Smallest (suc a) (suc a + n) p ⊎ ((p ≡ pos 0) × AllRefused (suc a) (suc a + n)))
          → Smallest a (a + suc n) p ⊎ ((p ≡ pos 0) × AllRefused a (a + suc n))
      go (ok tt) e f ih = inl (
        a,
        sym (ok_injective f),
        omega arith,
        omega arith,
        e,
        λ m lo hi. elim (lt_absurd a m lo hi) [ ],
      )
      go (raised (os_error j)) e f ih = elim (ih f) [
        | inl (k, pk, lo, hi, b, all) ↦
            inl (k, pk, omega arith, omega arith, b, AllRefused-step a k (j, e) all)
        | inr (z, all) ↦
            inr (z, AllRefused-step a (a + suc n) (j, e) (λ m lo hi. all m lo (omega arith)))
      ]
      go (raised e) g f ih = cc

  -- A search among the ports from `a` to below `b` returns the smallest port of them that can be
  -- bound: it lies in the range and every smaller port of the range was refused. When all were
  -- refused it returns 0.
  pub get_free_port-Smallest :
      (a b : ℕ) (p : ℤ)
      → a ≤ b
      → get_free_port bind_port (range (pos a) (pos b)) ≡ ok p
      → Smallest a b p ⊎ ((p ≡ pos 0) × AllRefused a b)
  unfolding range distance
  get_free_port-Smallest a b p le h =
      let e : a + (b - a) ≡ b = omega arith in rw e at (count_up-Smallest (b - a) a p h)
