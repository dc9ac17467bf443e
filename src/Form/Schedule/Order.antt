-- ===== src/Form/Schedule/Order.antt =====
-- Which schedules frontend/src/lib/schedule-validation.ts finds no error in.
use stechbaza_iot.Prelude.{
  Both, Each, List, Option, [], arith, none, refl, some, sym, ℕ, ◌*◌, ◌+◌, ◌<◌, ◌↔◌, ◌∙◌, ◌∷◌, ◌≡◌,
  ◌≤◌,
}
use stechbaza_iot.Form.Schedule.{
  ScheduleChange, ScheduleSpec, StopError, TimingErrors, change_error, change_errors, error_at,
  errors_from, errors_of, not_later, point_of, schedule_timing_errors, stop_error,
}
use stechbaza_iot.Form.Time.{minute_of_day}

-- Each point is after the one before and before the stop.
abbrev pub IsAscending : ℕ → ℕ → List ℕ → Type 0
IsAscending low stop [] = Unit
IsAscending low stop (p ∷ rest) = (low < p) × (p < stop) × IsAscending p stop rest

-- A run of one minute to seven days, in which the frequency changes at later and later minutes.
abbrev pub IsOrdered : ℕ → ℕ → List ℕ → Type 0
IsOrdered start stop points =
    (start < stop) × (stop ≤ start + 7 * 1440) × IsAscending start stop points

-- Nothing to show.
abbrev pub IsClear : TimingErrors → Type 0
IsClear e = (e.stop ≡ none) × Each (λ c. c ≡ none) e.changes

some-none : {A : Type 0} {a : A} → some a ≡ none → ⊥
some-none e = cc

change_error_iff :
    (start stop previous point : ℕ)
    → start ≤ previous
    → (change_error start stop (some previous) point ≡ none) ↔ ((previous < point) × (point < stop))
unfolding change_error not_later
change_error_iff start stop previous point h = ground arith

stop_error_iff :
    (start stop : ℕ) → (stop_error start stop ≡ none) ↔ ((start < stop) × (stop ≤ start + 7 * 1440))
unfolding stop_error
stop_error_iff start stop = ground arith

change_errors_iff :
    (start stop previous : ℕ) (l : List ScheduleChange) (points : List ℕ)
    → start ≤ previous
    → Both (λ c p. point_of c ≡ some p) l points
    → Each (λ e. e ≡ none) (change_errors start stop (some previous) l)
      ↔ IsAscending previous stop points
unfolding change_errors error_at
change_errors_iff start stop previous [] [] h b = (λ e. tt, λ e. tt)
change_errors_iff start stop previous [] (p ∷ points) h b = absurd b
change_errors_iff start stop previous (c ∷ l) [] h b = absurd b
change_errors_iff start stop previous (c ∷ l) (p ∷ points) h (is, more) =
    let this = change_error_iff start stop previous p h in
    let clear_rest = λ (low : start ≤ p). change_errors_iff start stop p l points low more in
    rw is (
      (λ (first, rest).
          let (later, before_stop) = this.0 first in
          (later, before_stop, (clear_rest (omega arith)).0 rest)),
      (λ (later, before_stop, rest).
          (this.1 (later, before_stop), (clear_rest (omega arith)).1 rest)),
    )

errors_from_iff :
    (start stop : ℕ) (l : List ScheduleChange) (points : List ℕ) (e : Option StopError)
    → stop_error start stop ≡ e
    → Both (λ c p. point_of c ≡ some p) l points
    → IsClear (errors_from l start stop e) ↔ IsOrdered start stop points
unfolding errors_from
errors_from_iff start stop l points (some e) h b = (
  λ (clear, _). cc,
  λ (later, short, _). absurd (some-none (sym h ∙ (stop_error_iff start stop).1 (later, short))),
)
errors_from_iff start stop l points none h b =
    let (later, short) = (stop_error_iff start stop).0 h in
    let changes = change_errors_iff start stop start l points (omega arith) b in
    (λ (_, clear). (later, short, changes.0 clear), λ (_, _, up). (refl, changes.1 up))

-- Where all the times of a schedule are times of a day, no error is shown exactly if the run lasts
-- for one minute to seven days, and the changes come one after the other, each at least a minute
-- after the one before it or the start, and before the stop.
pub schedule_timing_errors_iff :
    (s : ScheduleSpec) (start stop_time : ℕ) (points : List ℕ)
    → minute_of_day s.start_time ≡ some start
    → minute_of_day s.stop_time ≡ some stop_time
    → Both (λ c p. point_of c ≡ some p) s.changes points
    → IsClear (schedule_timing_errors s)
      ↔ IsOrdered start (s.stop_day_offset * 1440 + stop_time) points
unfolding schedule_timing_errors errors_of
schedule_timing_errors_iff s start stop_time points h k b =
    rw (h, k)
      (errors_from_iff start (s.stop_day_offset * 1440 + stop_time) s.changes points _ refl b)
