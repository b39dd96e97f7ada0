-- ===== src/Calendar/Id.antt =====
-- `date_to_id` of src/shiden/dates.py: the YYYYMMDD key orders dates as the calendar does.
use shiden_api.Base.{◌≡◌, leb, arith}
use shiden_api.Calendar.{Date, IsValid, date_leb, date_ltb, date_to_id}
use shiden_api.Calendar.Ordinal.{days_in_month_bounds}

-- For dates that Python can construct, keys compare as the dates do, so a filter on keys is a
-- filter on dates.
pub date_to_id-leb :
    (a b : Date) → IsValid a → IsValid b → date_leb a b ≡ leb (date_to_id a) (date_to_id b)
unfolding date_to_id date_leb date_ltb
date_to_id-leb a b va vb =
    ground (arith, days_in_month_bounds a.year a.month, days_in_month_bounds b.year b.month)

-- Two dates that Python can construct with the same key are the same date.
pub date_to_id_inj : (a b : Date) → IsValid a → IsValid b → date_to_id a ≡ date_to_id b → a ≡ b
unfolding date_to_id
date_to_id_inj a b va vb e =
    ground (arith, days_in_month_bounds a.year a.month, days_in_month_bounds b.year b.month)
