-- ===== src/Tests/Rates.antt =====
-- Exchange rates from the download to the Bronze rows, at concrete inputs.
use shiden_api.Base.{
  ℕ, ◌+◌, ◌-◌, ◌*◌, ◌/◌, ◌%◌, ◌≤◌, ◌≡◌, refl, [], ◌∷◌, Option, none, some, if◌then◌else◌, arith,
  ◌>>=◌,
}
use shiden_api.Base.Text.{Text, codes}
use shiden_api.Base.Dicts.{Dict, find_entry}
use shiden_api.Base.Json.{Json, text, JsonLib}
use shiden_api.Base.Xml.{Element, element, child, no_elements, iter, descendants}
use shiden_api.Calendar.{Date, date, IsValid, days_in_month, is_leap, date_range}
use shiden_api.Ingest.{Response, replied, get_text_with_retry, retry_loop, settled}
use shiden_api.Landing.{find_file, mem_date, rows_of_file}
use shiden_api.LandingPaths.{isoformat}
use shiden_api.Bnr.{BnrZone}
use shiden_api.Ecb.{all_cubes, parse_ecb_xml}
use shiden_api.Ecb.Bronze.{parse_landing_json}
use shiden_api.Ecb.ReadBack.{ReadsBack, expected, ingest-rows_of_file}

abbrev lib : JsonLib (Json ℕ) ℕ Text
lib = record {
  dumps = λ j. j;
  loads = λ j. some j;
  fromisoformat = λ s. some s;
  str_of = λ j. elim j [ text s ↦ s | _ ↦ [] ];
  float_text = λ s. some 7;
  float_boolean = λ b. if b then 1 else 0;
}

abbrev four : ℕ → ℕ → ℕ → ℕ → ℕ
four a b c d = (a - 48) * 1000 + (b - 48) * 100 + (c - 48) * 10 + (d - 48)

abbrev two : ℕ → ℕ → ℕ
two a b = (a - 48) * 10 + (b - 48)

-- Reads YYYY-MM-DD.
abbrev from_iso : Text → Option Date
from_iso (a ∷ b ∷ c ∷ d ∷ _ ∷ e ∷ f ∷ _ ∷ g ∷ h ∷ []) =
    some (date (four a b c d) (two e f) (two g h))
from_iso _ = none

four_digits :
    (n : ℕ)
    → n ≤ 9999
    → four (48 + n / 1000 % 10) (48 + n / 100 % 10) (48 + n / 10 % 10) (48 + n % 10) ≡ n
four_digits n h = omega arith

two_digits : (n : ℕ) → n ≤ 99 → two (48 + n / 10 % 10) (48 + n % 10) ≡ n
two_digits n h = omega arith

at_most_31 : (y m n : ℕ) → n ≤ days_in_month y m → n ≤ 99
unfolding days_in_month
at_most_31 y m n h = ground arith

lib-ReadsBack : ReadsBack lib from_iso
unfolding isoformat
lib-ReadsBack = record {
  loads_dumps = λ j. refl;
  fromisoformat_isoformat = λ d v y.
      rw
        (
          four_digits d.year y.1,
          two_digits d.month (omega (arith, v.month_in)),
          two_digits d.day (at_most_31 d.year d.month d.day v.day_in.1),
        )
        refl;
}

abbrev monday : Date
monday = date 2026 3 2

monday-IsValid : IsValid monday
unfolding days_in_month is_leap
monday-IsValid = record {
  year_in = omega arith;
  month_in = (omega arith, omega arith);
  day_in = (omega arith, omega arith);
}

abbrev rate : Element
rate =
    element (codes "Cube") ((codes "currency", codes "USD") ∷ (codes "rate", codes "1.09") ∷ [])
      none no_elements

abbrev download : Element
download =
    element (codes "{http://www.ecb.int/vocabulary/2002-08-01/eurofxref}Cube")
      ((codes "time", codes "2026-03-02") ∷ []) none (child rate no_elements)

abbrev server : Text → ℕ → Response
server url n = replied 200 (codes "xml")

abbrev usd : Dict (Dict ℕ)
usd = (codes "2026-03-02", (codes "USD", 7) ∷ []) ∷ []

downloaded : all_cubes lib (λ s. some download) server ≡ some usd
unfolding all_cubes parse_ecb_xml get_text_with_retry retry_loop settled iter descendants
downloaded = refl

ingest-rows_of_file_example :
    (do
      later ← shiden_api.Ecb.ingest lib (λ s. some download) server (codes "now") monday monday []
      rows_of_file
          (parse_landing_json lib from_iso (λ s. monday) monday (codes "now") monday)
          (find_file monday later))
    ≡ expected lib from_iso
        (λ s. monday)
        lib-ReadsBack
        monday
        (codes "now")
        (codes "now")
        monday
        (find_file monday [])
        (mem_date monday (date_range monday monday))
        (find_entry (isoformat monday) usd)
ingest-rows_of_file_example =
    ingest-rows_of_file lib from_iso (λ s. monday) lib-ReadsBack monday (codes "now") (codes "now")
      (λ s. some download) server monday monday monday [] usd downloaded monday-IsValid
      (omega arith, omega arith)

abbrev cube : Element
cube =
    element (codes "{http://www.bnr.ro/xsd}Cube") ((codes "date", codes "2026-03-02") ∷ []) none
      no_elements

abbrev empty_zone : BnrZone (Json ℕ)
empty_zone = record { xml = []; sidecar = [] }
