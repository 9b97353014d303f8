-- ===== src/Dcron.antt =====
-- slapos/recipe/dcron.py: `systemd_to_cron`, which rewrites a systemd calendar specification
-- as the five fields of a crontab line.
mod Part
mod Entries
pub mod Days
pub mod Shorthands
mod Tests
pub mod Fields
pub mod Calendar
use slapos_abilian_edge.Base.{ℕ, zero, suc, ◌+◌, ◌-◌, ◌*◌, ◌/◌, Bool, not, ◌&&◌, ◌||◌, Option, none}
use slapos_abilian_edge.Base.{some, List, [], ◌∷◌, ◌++◌, ltb, leb, if◌then◌else◌, take}
use slapos_abilian_edge.Base.Py.{key_error, value_error, index_error, Outcome, ok, raised, bind}
use slapos_abilian_edge.Base.Text.{sort_texts, Text, codes, text_eq, strip, split_on, split_first}
use slapos_abilian_edge.Base.Text.{join, lower, has_char, ℤ, pos, int, show}
use slapos_abilian_edge.Base.Str.{words}

-- `symbolic_dict`
pub symbolic : Text → Option Text
symbolic spec =
    if text_eq spec (codes "minutely")
    then some (codes "* * * * *")
    else if text_eq spec (codes "hourly")
    then some (codes "0 * * * *")
    else if text_eq spec (codes "daily")
    then some (codes "0 0 * * *")
    else if text_eq spec (codes "weekly")
    then some (codes "0 0 * * 0")
    else if text_eq spec (codes "monthly")
    then some (codes "0 0 1 * *")
    else if text_eq spec (codes "yearly")
    then some (codes "0 0 1 1 *")
    else none

abbrev day_names : List Text
day_names =
    codes "sunday"
    ∷ codes "monday"
    ∷ codes "tuesday"
    ∷ codes "wednesday"
    ∷ codes "thursday"
    ∷ codes "friday"
    ∷ codes "saturday"
    ∷ []

-- `day_of_week_dict[name]`: full names and their first three letters.
day_number : List Text → ℕ → Text → Outcome ℕ
day_number [] n name = raised key_error
day_number (d ∷ ds) n name =
    let rest = day_number ds (suc n) name in
    if text_eq name d || text_eq name (take 3 d) then ok n else rest

-- `'-'.join(str(day_of_week_dict[x.lower()]) for x in x.split('-', 1))`
day_range : Text → Outcome Text
day_range x = elim (split_first b'-' x) [
  | none ↦ bind (day_number day_names 0 (lower x)) (λ n. ok (show n))
  | some (l, r) ↦
      bind (day_number day_names 0 (lower l))
        (λ m. bind (day_number day_names 0 (lower r)) (λ n. ok (show m ++ (b'-' ∷ show n))))
]

day_ranges : List Text → Outcome (List Text)
day_ranges [] = ok []
day_ranges ([] ∷ xs) = day_ranges xs
day_ranges ((c ∷ x) ∷ xs) = bind (day_range (c ∷ x)) (λ d. bind (day_ranges xs) (λ ds. ok (d ∷ ds)))

-- The days of the week of `spec[0]`, which is dropped if it names them; `*` if not.
pub take_dow : List Text → Text × List Text
take_dow [] = (codes "*", [])
take_dow (w ∷ ws) = elim (day_ranges (split_on b',' w)) [
  | ok days ↦ (join (codes ",") (sort_texts days), ws)
  | raised _ ↦ (codes "*", w ∷ ws)
]

-- `day` and `time` from what is left: at most two words.
pub take_time : List Text → Outcome (Text × Text)
take_time [] = ok (codes "*-*", codes "0:0")
take_time (day ∷ []) = ok (if has_char b':' day then (codes "*-*", day) else (day, codes "0:0"))
take_time (day ∷ time ∷ []) = ok (day, time)
take_time _ = raised value_error

-- The year: only `*` may stand there.
drop_year : List Text → Outcome (List Text)
drop_year (y ∷ m ∷ d ∷ rest) =
    if text_eq y (codes "*") then ok (m ∷ d ∷ rest) else raised value_error
drop_year day = ok day

-- `dow != '*' != day[1]`
refuse_day : Text → List Text → Outcome (Unit {0})
refuse_day dow (m ∷ d ∷ rest) =
    if not (text_eq dow (codes "*")) && not (text_eq d (codes "*"))
    then raised value_error
    else ok tt
refuse_day dow _ = if text_eq dow (codes "*") then ok tt else raised index_error

is_nonzero : Option ℤ → Outcome (Unit {0})
is_nonzero none = raised value_error
is_nonzero (some (pos zero)) = ok tt
is_nonzero (some _) = raised value_error

-- The seconds, the last of three or more parts: only zero may stand there.
drop_seconds : List Text → Outcome (List Text)
drop_seconds (h ∷ m ∷ s ∷ []) = bind (is_nonzero (int s)) (λ _. ok (h ∷ m ∷ []))
drop_seconds (h ∷ m ∷ s ∷ t ∷ rest) = raised value_error
drop_seconds time = ok time

-- `a, b = parts`
unpack : List Text → Outcome (Text × Text)
unpack (a ∷ b ∷ []) = ok (a, b)
unpack _ = raised value_error

-- One piece of a field: `none` if it is a number in range, and the text of the steps, which
-- takes the place of the field, if it has a step.
stepped : ℕ → ℕ → ℕ → ℕ → Outcome (Option Text)
stepped y z n b =
    let a = (z - (n - y) - 1) / b * b in
    if ltb 0 b && ltb 0 a
    then ok (some (show n ++ (b'-' ∷ (show (n + a) ++ (b'/' ∷ show b)))))
    else raised value_error

in_range : ℕ → ℕ → ℕ → Bool
in_range y z n = leb y n && ltb (n - y) z

one_part : ℕ → ℕ → Option ℤ → Outcome (Option Text)
one_part y z (some (pos n)) = if in_range y z n then ok none else raised value_error
one_part y z _ = raised value_error

two_parts : ℕ → ℕ → Option ℤ → Option ℤ → Outcome (Option Text)
two_parts y z (some (pos n)) (some (pos b)) =
    if in_range y z n then stepped y z n b else raised value_error
two_parts y z _ _ = raised value_error

piece_parts : ℕ → ℕ → Text → Option (Text × Text) → Outcome (Option Text)
piece_parts y z x none = one_part y z (int x)
piece_parts y z x (some (n, b)) = two_parts y z (int n) (int b)

pub piece : ℕ → ℕ → Text → Outcome (Option Text)
unfolding piece_parts one_part two_parts stepped in_range
piece y z x = piece_parts y z x (split_first b'/' x)

abbrev get_or : Text → Option Text → Text
get_or cur none = cur
get_or cur (some new) = new

-- The loop over the pieces of a field whose text is now `cur`.
pub pieces : ℕ → ℕ → Text → List Text → Outcome Text
pieces y z cur [] = ok cur
pieces y z cur (x ∷ xs) = bind (piece y z x) (λ r. pieces y z (get_or cur r) xs)

-- One field with its first value and its number of values.
pub field : ℕ → ℕ → Text → Outcome Text
unfolding pieces
field y z x = if text_eq x (codes "*") then ok x else pieces y z x (split_on b',' x)

-- The five fields of the line, once the words of the specification are told apart.
pub line_of : Text → Text × Text → Text × Text → Outcome Text
line_of dow (month, day) (hour, minute) = bind (field 0 60 minute) λ minute'.
    bind (field 0 24 hour) λ hour'. bind (field 1 31 day) λ day'.
      bind (field 1 12 month)
        λ month'. ok (join (codes " ") (minute' ∷ hour' ∷ day' ∷ month' ∷ dow ∷ []))

calendar : Text → Outcome Text
unfolding line_of
calendar spec =
    let (dow, words) = take_dow (split_on b' ' spec) in
    bind (take_time words) λ (day, time). bind (drop_year (split_on b'-' day)) λ day_parts.
      bind (refuse_day dow day_parts) λ _.
        bind (drop_seconds (split_on b':' time)) λ time_parts.
          bind (unpack day_parts) λ md. bind (unpack time_parts) λ hm. line_of dow md hm

pub systemd_to_cron : Text → Outcome Text
unfolding calendar symbolic take_dow day_ranges day_range day_number sort_texts take_time drop_year
    refuse_day drop_seconds is_nonzero unpack field piece
systemd_to_cron spec = elim (symbolic spec) [
  | some line ↦ ok line
  | none ↦ if text_eq (strip spec) [] then raised value_error else calendar spec
]
