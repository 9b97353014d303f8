-- ===== src/Dcron/Calendar.antt =====
-- Lemmas on the words of a calendar specification, slapos/recipe/dcron.py.
use slapos_abilian_edge.Dcron.{take_dow, take_time}
use slapos_abilian_edge.Dcron.Days.{IsDow}
use slapos_abilian_edge.Dcron.Fields.{LineOf}
use slapos_abilian_edge.Base.{◌≡◌, ◌⊎◌, some}
use slapos_abilian_edge.Base.{[], ◌∷◌}
use slapos_abilian_edge.Base.Py.{ok}
use slapos_abilian_edge.Base.Text.{Text, codes, split_on, pos}
use slapos_abilian_edge.Base.Text.{int}

-- The month and the day of a date, which may have `*` for the year before them.
pub IsDate : (date month day : Text) → Type 0
IsDate date month day =
    (split_on b'-' date ≡ month ∷ day ∷ []) ⊎ (split_on b'-' date ≡ codes "*" ∷ month ∷ day ∷ [])

-- The hour and the minute of a time, which may have seconds behind them that are zero.
pub IsTime : (time hour minute : Text) → Type 0
IsTime time hour minute =
    (split_on b':' time ≡ hour ∷ minute ∷ [])
    ⊎ ((s : Text) × (split_on b':' time ≡ hour ∷ minute ∷ s ∷ []) × (int s ≡ some (pos 0)))

-- A line that is made of the words of a specification: its days of the week, its date and its time.
pub FromWords : Text → Text → Type 0
FromWords spec line =
    (date time month day hour minute : Text) × (take_time (take_dow (split_on b' ' spec)).1
      ≡ ok (date, time))
    × IsDow (take_dow (split_on b' ' spec)).0
    × IsDate date month day
    × IsTime time hour minute
    × (((take_dow (split_on b' ' spec)).0 ≡ codes "*") ⊎ (day ≡ codes "*"))
    × LineOf (take_dow (split_on b' ' spec)).0 month day hour minute line
