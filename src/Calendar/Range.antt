-- ===== src/Calendar/Range.antt =====
-- `date_range` of src/shiden/dates.py yields the days of a closed interval, each once, in order.
use shiden_api.Base.{
  ℕ, zero, suc, ◌+◌, ◌-◌, ◌≤◌, ◌<◌, ◌≡◌, inl, inr, List, [], ◌∷◌, map, All, count_up, arith,
  Bool-cases, ap, sym, ◌∙◌, false,
}
use shiden_api.Calendar.{Date, IsValid, to_ordinal, next_day, date_leb, range_loop, date_range}
use shiden_api.Calendar.Order.{to_ordinal-next_day, next_day-IsValid, date_leb_iff, to_ordinal_pos}

-- The ordinals from `a` to `b`, none if `b < a`.
abbrev pub ordinals : ℕ → ℕ → List ℕ
ordinals a b = count_up a (b + 1 - a)

ordinals-cons : (a b : ℕ) → a ≤ b → ordinals a b ≡ a ∷ ordinals (suc a) b
ordinals-cons a b h = rw (split a b h)
  where
    split : (a b : ℕ) → a ≤ b → b + 1 - a ≡ suc (b + 1 - suc a)
    split a b h = omega arith

pub ordinals-nil : (a b : ℕ) → b < a → ordinals a b ≡ []
ordinals-nil a b h = rw (none_left a b h)
  where
    none_left : (a b : ℕ) → b < a → b + 1 - a ≡ 0
    none_left a b h = omega arith

next_ordinal : {d : Date} → IsValid d → to_ordinal (next_day d) ≡ suc (to_ordinal d)
next_ordinal {d} v = omega (arith, to_ordinal-next_day d v)

pub after_end :
    {a b : Date} → IsValid a → IsValid b → date_leb a b ≡ false → to_ordinal b < to_ordinal a
after_end {a} {b} va vb e = ground (arith, date_leb_iff a b va vb)

-- Whatever the fuel, as long as it exceeds the days left.
pub range_loop_lem :
    (fuel : ℕ) (current end : Date)
    → IsValid current
    → IsValid end
    → to_ordinal end + 1 < fuel + to_ordinal current
    → (map to_ordinal (range_loop fuel current end)
        ≡ ordinals (to_ordinal current) (to_ordinal end))
      × All IsValid (range_loop fuel current end)
unfolding range_loop
range_loop_lem zero current end vc ve h =
    (rw (ordinals-nil (to_ordinal current) (to_ordinal end) (omega arith)), tt)
range_loop_lem (suc fuel) current end vc ve h = elim (Bool-cases (date_leb current end)) [
  | inl e ↦
      let (later, valid) =
        range_loop_lem fuel (next_day current) end (next_day-IsValid current vc) ve
          (omega (arith, to_ordinal-next_day current vc)) in
      rw e (
        ap (λ l. to_ordinal current ∷ l)
              (later ∙ ap (λ n. ordinals n (to_ordinal end)) (next_ordinal vc))
            ∙ sym (
                ordinals-cons (to_ordinal current) (to_ordinal end)
                  ((date_leb_iff current end vc ve).0 e)),
        (vc, valid),
      )
  | inr e ↦ rw e (rw (ordinals-nil (to_ordinal current) (to_ordinal end) (after_end vc ve e)), tt)
]

-- For valid `start` and `end`, `date_range` yields valid dates, whose ordinals are those from
-- `start` to `end`, each once and in order, and none if `end` comes first. The loop always ends.
pub date_range-ordinals :
    (start end : Date)
    → IsValid start
    → IsValid end
    → (map to_ordinal (date_range start end) ≡ ordinals (to_ordinal start) (to_ordinal end))
      × All IsValid (date_range start end)
unfolding date_range
date_range-ordinals start end vs ve =
    range_loop_lem (suc (to_ordinal end)) start end vs ve (omega (arith, to_ordinal_pos start vs))
