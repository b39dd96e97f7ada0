-- ===== src/Backfill.antt =====
-- The backfill command, src/shiden/backfill.py. This file has the slicing of an interval into
-- calendar months; the stages and the command are in the children.
pub mod Chunks
pub mod Stages
pub mod Calls
pub mod Exits
use shiden_api.Base.{ℕ, zero, suc, ◌+◌, Bool, true, false, List, [], ◌∷◌, ◌==◌, if◌then◌else◌}
use shiden_api.Calendar.{Date, date, to_ordinal, next_day, prev_day, date_ltb, date_leb}

-- The first day of the month after that of `cursor`.
unfoldable pub next_month : Date → Date
next_month cursor =
    if cursor.month == 12 then date (cursor.year + 1) 1 1 else date cursor.year (cursor.month + 1) 1

-- `min(a, b)`
unfoldable pub date_min : Date → Date → Date
date_min a b = if date_ltb b a then b else a

unfoldable pub chunk_end : Date → Date → Date
chunk_end cursor end = date_min (prev_day (next_month cursor)) end

-- The loop of `_month_chunks`, with fuel.
unfoldable pub chunks_loop : ℕ → Date → Date → List (Date × Date)
chunks_loop zero cursor end = []
chunks_loop (suc fuel) cursor end =
    let rest = chunks_loop fuel (next_day (chunk_end cursor end)) end in
    if date_leb cursor end then (cursor, chunk_end cursor end) ∷ rest else []

-- The fuel is more than the number of days up to `end`.
unfoldable pub month_chunks : Date → Date → List (Date × Date)
month_chunks start end = chunks_loop (suc (to_ordinal end)) start end
