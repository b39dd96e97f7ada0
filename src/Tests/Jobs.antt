-- ===== src/Tests/Jobs.antt =====
-- The daily jobs and the backfill with processors that always succeed, or that fail in part.
use shiden_api.Base.{ℕ, suc, ◌≡◌, refl, [], ◌∷◌, true, false, arith, none, All}
use shiden_api.Base.Text.{codes}
use shiden_api.Calendar.{Date, date, IsValid, to_ordinal, days_in_month, is_leap, calendar}
use shiden_api.Calendar.Range.{ordinals}
use shiden_api.Pipeline.{Step, ecb_ingest, StepOutcome, finished, raised, start_run, execute, main}
use shiden_api.Pipeline.Isolation.{HasSpark}
use shiden_api.Pipeline.Plan.{is_ordered, main-is_ordered}
use shiden_api.Backfill.{month_chunks, chunks_loop, chunk_end, next_month, date_min}
use shiden_api.Backfill.Chunks.{days_of, IsSlice, month_chunks-partition}
use shiden_api.Backfill.Stages.{Args}

-- The ECB ingester raises, all else succeeds; the world counts the calls.
abbrev perform : Step → ℕ → ℕ × StepOutcome
perform (ecb_ingest s e) n = (suc n, raised)
perform _ n = (suc n, finished 0)

starts : HasSpark perform
starts n = refl

abbrev today : Date
today = date 2026 3 2

main-is_ordered_example :
    is_ordered [] (execute perform (main none today) (start_run 0)).0.performed ≡ true
main-is_ordered_example = main-is_ordered perform today 0 starts

abbrev november : Date
november = date 2025 11 20

abbrev january : Date
january = date 2026 1 10

november-IsValid : IsValid november
unfolding days_in_month is_leap
november-IsValid = record {
  year_in = omega arith;
  month_in = (omega arith, omega arith);
  day_in = (omega arith, omega arith);
}

january-IsValid : IsValid january
unfolding days_in_month is_leap
january-IsValid = record {
  year_in = omega arith;
  month_in = (omega arith, omega arith);
  day_in = (omega arith, omega arith);
}

two_slices :
    month_chunks (date 2025 12 30) (date 2026 1 2)
    ≡ (date 2025 12 30, date 2025 12 31) ∷ (date 2026 1 1, date 2026 1 2) ∷ []
unfolding month_chunks chunks_loop chunk_end next_month date_min calendar
two_slices = refl

month_chunks-partition_example :
    (days_of (month_chunks november january) ≡ ordinals (to_ordinal november) (to_ordinal january))
    × All IsSlice (month_chunks november january)
month_chunks-partition_example =
    month_chunks-partition november january november-IsValid january-IsValid

abbrev args : Args
args = record {
  start = november;
  end = january;
  market = codes "RO";
  sources = codes "opcom" ∷ codes "fx" ∷ [];
  stages = codes "landing" ∷ codes "bronze" ∷ codes "silver" ∷ codes "gold" ∷ [];
  refetch = false;
  allow_pre_mtu = false;
  dry_run = false;
}
