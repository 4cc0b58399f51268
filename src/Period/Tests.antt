-- ===== src/Period/Tests.antt =====
-- Runs of Period at concrete dates.
use qlerify_live.Prelude.{◌≡◌, refl, some, none, ◌*◌, ◌+◌, ◌≤◌, arith, String, [], ◌∷◌, has}
use qlerify_live.Ontology.Schema.{EntitySchema, SchemaField}
use qlerify_live.Period.Calendar.{
  Date, utc, get_utc_date, get_utc_month, get_utc_day, day_ms, get_utc_full_year, year_of_day,
  year_from, month_from, days_before_year, days_before_month, days_in_year, shift_utc_date,
}
use qlerify_live.Period.{
  quarter, week, codes, period_of, period_start, granularity_of, period_key_of, decimal, digits,
  pad2, week_thursday, week_number, iso_day, week_start, cycle_id, match_week,
}
use qlerify_live.Period.Laws.{InPeriod, period_start-period_of}

-- The eighth of August 2026, a Saturday.
abbrev august_8 : Date
august_8 = (719528 + 20673) * day_ms + 1234

get_utc_month-august : get_utc_month august_8 ≡ 7
unfolding get_utc_month get_utc_full_year year_of_day year_from month_from days_before_year
    days_before_month days_in_year
get_utc_month-august = refl

get_utc_day-august : get_utc_day august_8 ≡ 6
unfolding get_utc_day
get_utc_day-august = refl

get_utc_full_year-august : get_utc_full_year august_8 ≡ 2026
unfolding get_utc_full_year year_of_day year_from days_before_year
get_utc_full_year-august = refl

period_of-quarter : period_of august_8 quarter ≡ codes "2026Q3"
unfolding period_of decimal digits get_utc_month get_utc_full_year year_of_day year_from month_from
    days_before_year days_before_month days_in_year
period_of-quarter = refl

period_of-week : period_of august_8 week ≡ codes "2026-W32"
unfolding period_of decimal digits pad2 week_thursday week_number iso_day shift_utc_date get_utc_day
    get_utc_month get_utc_date get_utc_full_year year_of_day year_from month_from days_before_year
    days_before_month days_in_year utc
period_of-week = refl

period_start-week : period_start (codes "2026-W32") week ≡ some ((719528 + 20668) * day_ms)
unfolding period_start match_week week_start iso_day shift_utc_date get_utc_day utc days_before_year
    days_before_month days_in_year
period_start-week = refl

-- A week that is not there.
period_start-week_54 : period_start (codes "2026-W54") week ≡ none
unfolding period_start match_week
period_start-week_54 = refl

granularity_of-fiscal : granularity_of "fiscal_Quarter" ≡ some quarter
unfolding granularity_of
granularity_of-fiscal = refl

abbrev field : String → SchemaField
field name = record { name = name; data_type = none; example_data = []; related_entity = none }

abbrev cycle : EntitySchema
cycle = record {
  name = "Quarter";
  required = [];
  fields = field "id" ∷ field "companyId" ∷ field "quarter" ∷ [];
  key = some ("companyId" ∷ "quarter" ∷ []);
}

period_key_of-cycle :
    period_key_of cycle
    ≡ some (record {
      subject_fields = "companyId" ∷ [];
      period_field = "quarter";
      granularity = quarter;
    })
unfolding period_key_of has
period_key_of-cycle = refl

cycle_id-company : cycle_id (codes "c1" ∷ []) (codes "2026Q3") ≡ codes "c1@2026Q3"
unfolding cycle_id
cycle_id-company = refl

in_range : (1001 ≤ get_utc_full_year august_8) × (get_utc_full_year august_8 ≤ 9998)
in_range = omega (arith, get_utc_full_year-august)

period_start-period_of_example :
    (start : Date) × InPeriod august_8 (period_of august_8 week) week start
period_start-period_of_example = period_start-period_of august_8 in_range.0 in_range.1 week
