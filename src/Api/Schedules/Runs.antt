-- ===== src/Api/Schedules/Runs.antt =====
-- The runs of a schedule that frontend/src/lib/api/schedules.ts accepts.
use stechbaza_iot.Prelude.{
  &&-eq-true, Option, String, ap, arith, if-some, if-taken, none, refl, some, subst, sym, true, ◌*◌,
  ◌∙◌, ◌≡◌,
}
use stechbaza_iot.Api.Programs.{ProgramPlan, max_schedule_seconds, total_seconds}
use stechbaza_iot.Api.Programs.Plan.{IsPlan, parse_program_plan-IsPlan}
use stechbaza_iot.Api.Schedules.{Calendar, is_zoned}
use stechbaza_iot.Api.Schedules.Occurrences.{
  ScheduleRun, lasts, parse_schedule_run, plan_fields, run_of_plan, run_of_texts,
}
use stechbaza_iot.Host.{Host}
use stechbaza_iot.Js.Value.{Fields, Value, get, obj, str}
use stechbaza_iot.Prelude.Int.{eq_of_parts, pos, ℤ, ◌-ℤ◌}

pub record IsRun ⦃h : Host⦄ (calendar : Calendar) (run : ScheduleRun) : Type 0 where
  pub begins : ℤ
  pub ends : ℤ
  pub start_known : h.date_parse run.starts_at ≡ some begins
  pub stop_known : h.date_parse run.stops_at ≡ some ends
  pub start_zoned : is_zoned calendar run.starts_at ≡ true
  pub stop_zoned : is_zoned calendar run.stops_at ≡ true
  pub planned : IsPlan max_schedule_seconds run.plan
  pub for_plan : ends -ℤ begins ≡ pos (total_seconds run.plan.steps * 1000)

Lasting : Option ℤ → Option ℤ → ProgramPlan → Type 0
Lasting starts stops plan =
    (a : ℤ) × (b : ℤ) × (starts ≡ some a)
    × (stops ≡ some b)
    × (b -ℤ a ≡ pos (total_seconds plan.steps * 1000))

lasts-Lasting :
    (starts stops : Option ℤ) (plan : ProgramPlan)
    → lasts starts stops plan ≡ true
    → Lasting starts stops plan
unfolding Lasting
lasts-Lasting (some a) (some b) plan e =
    (a, b, refl, refl, eq_of_parts (b -ℤ a) (pos (total_seconds plan.steps * 1000)) (ground arith))
lasts-Lasting none stops plan e = cc
lasts-Lasting (some a) none plan e = cc

-- What is known of a run that is read from its two texts
record IsReading ⦃h : Host⦄ (starts stops : String) (plan : Option ProgramPlan) (r : ScheduleRun)
    : Type 0 where
  pub same_start : starts ≡ r.starts_at
  pub same_stop : stops ≡ r.stops_at
  pub same_plan : plan ≡ some r.plan
  pub lasting : Lasting (h.date_parse starts) (h.date_parse stops) r.plan

module _ ⦃h : Host⦄ (calendar : Calendar) where
  run_of_plan-IsReading :
      (starts stops : String) (plan : Option ProgramPlan) (r : ScheduleRun)
      → run_of_plan calendar starts stops plan ≡ some r
      → IsReading starts stops plan r
  unfolding run_of_plan
  run_of_plan-IsReading starts stops none r e = cc
  run_of_plan-IsReading starts stops (some plan) r e =
      let (lasting, same) = if-some _ _ r e in
      record {
        same_start = ap (λ (q : ScheduleRun). q.starts_at) same;
        same_stop = ap (λ (q : ScheduleRun). q.stops_at) same;
        same_plan = ap (λ (q : ScheduleRun). some q.plan) same;
        lasting =
            subst (λ (q : ScheduleRun). Lasting (h.date_parse starts) (h.date_parse stops) q.plan)
              same (lasts-Lasting _ _ plan lasting);
      }

  run_of_texts-IsRun :
      (raw : Fields) (from_value to_value : Value) (r : ScheduleRun)
      → run_of_texts calendar raw from_value to_value ≡ some r
      → IsRun calendar r
  unfolding run_of_texts Lasting
  run_of_texts-IsRun raw (str starts) (str stops) r e =
      let (known, taken) = if-taken _ _ r e in
      let (both_zoned, times) = &&-eq-true (&&-eq-true known).0 in
      let (start_zoned, stop_zoned) = &&-eq-true both_zoned in
      let reading = run_of_plan-IsReading starts stops _ r taken in
      let (a, b, from_time, to_time, long) = reading.lasting in
      record {
        begins = a;
        ends = b;
        start_known = ap h.date_parse (sym reading.same_start) ∙ from_time;
        stop_known = ap h.date_parse (sym reading.same_stop) ∙ to_time;
        start_zoned = ap (is_zoned calendar) (sym reading.same_start) ∙ start_zoned;
        stop_zoned = ap (is_zoned calendar) (sym reading.same_stop) ∙ stop_zoned;
        planned =
            parse_program_plan-IsPlan (plan_fields raw) max_schedule_seconds r.plan
              reading.same_plan;
        for_plan = long;
      }
  run_of_texts-IsRun raw from_value to_value r e = cc

  -- A run of a schedule is read only if it has the times of its start and its end with their
  -- zones, its plan is one of one to eight steps within seven days, and from its start to its end
  -- it lasts exactly for the seconds of the plan.
  pub parse_schedule_run-IsRun :
      (raw : Value) (r : ScheduleRun) → parse_schedule_run calendar raw ≡ some r → IsRun calendar r
  unfolding parse_schedule_run
  parse_schedule_run-IsRun (obj raw) r e =
      run_of_texts-IsRun raw (get raw "starts_at") (get raw "stops_at") r (if-taken _ _ r e).1
  parse_schedule_run-IsRun raw r e = cc
