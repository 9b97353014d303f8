-- ===== src/Dcron/Shorthands.antt =====
-- Lemmas on `symbolic_dict` of slapos/recipe/dcron.py.
use slapos_abilian_edge.Dcron.{symbolic}
use slapos_abilian_edge.Base.{◌≡◌, inl, inr, Option, none, some, if◌then◌else◌, Bool-cases}
use slapos_abilian_edge.Base.{some_injective}
use slapos_abilian_edge.Base.Text.{Text, codes, text_eq, text_eq_iff}

-- A shorthand and its line: each minute, at the beginning of each hour, of each day, of each Sunday,
-- of the first day of each month, and of the first day of each year.
pub data Shorthand : Text → Text → Type 0 where
  minutely : Shorthand (codes "minutely") (codes "* * * * *")
  hourly : Shorthand (codes "hourly") (codes "0 * * * *")
  daily : Shorthand (codes "daily") (codes "0 0 * * *")
  weekly : Shorthand (codes "weekly") (codes "0 0 * * 0")
  monthly : Shorthand (codes "monthly") (codes "0 0 1 * *")
  yearly : Shorthand (codes "yearly") (codes "0 0 1 1 *")

-- An entry of the table, and what is asked after it.
after_entry :
    (spec line name l : Text) (rest : Option Text)
    → Shorthand name l
    → (rest ≡ some line → Shorthand spec line)
    → (if text_eq spec name then some l else rest) ≡ some line
    → Shorthand spec line
after_entry spec line name l rest s others e = elim (Bool-cases (text_eq spec name)) [
  | inl h ↦
      let p : spec ≡ name = (text_eq_iff spec name).0 h in
      let q : l ≡ line = some_injective (rw h at e) in rw (p, ← q) s
  | inr n ↦ others (rw n at e)
]

pub symbolic-Shorthand : (spec line : Text) → symbolic spec ≡ some line → Shorthand spec line
unfolding symbolic
symbolic-Shorthand spec line = after_entry spec line _ _ _ minutely (
    after_entry spec line _ _ _ hourly (
      after_entry spec line _ _ _ daily (
        after_entry spec line _ _ _ weekly
          (after_entry spec line _ _ _ monthly (after_entry spec line _ _ none yearly (λ e. cc))))))
