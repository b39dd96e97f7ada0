-- ===== src/RateLimit/Retry.antt =====
-- What a refused client is told: to wait `retry_after` seconds.
use shiden_api.Base.{
  ℕ, ◌+◌, ◌-◌, ◌*◌, ◌/◌, max, ◌≤◌, ◌≡◌, refl, ap, ◌∙◌, true, false, List, [], ◌∷◌, ◌==◌, arith, leb,
  length, inl, inr, sym, subst, leb→le, lt→ltb, ==_iff, leb-false→lt, length-append, Bool-cases,
  if◌then◌else◌, some,
}
use shiden_api.RateLimit.{
  Limiter, RateLimitResult, Outcome, returned, index_error, second, expire, decide, check, reset,
  verdict,
}
use shiden_api.RateLimit.HitMap.{get, get-put_self, get-remove_self, get-remove_ne, remove}
use shiden_api.RateLimit.Refines.{decide-verdict}

true-ne-false : true ≡ false → ⊥
true-ne-false h = cc

-- The fields of a result agree: an admitted call leaves `limit - hits` more, a refused one
-- leaves none and is told to wait at least a second.
abbrev pub IsConsistent : ℕ → ℕ → Outcome → Type 0
IsConsistent limit held index_error = limit ≡ 0
IsConsistent limit held (returned r) =
    (r.limit ≡ limit)
    × (if r.allowed
        then (r.remaining + held ≡ limit) × (r.retry_after ≡ 0)
        else (r.remaining ≡ 0) × (limit ≤ held) × (1 ≤ r.retry_after))

decide-IsConsistent :
    (w limit now : ℕ) (d : List ℕ)
    → IsConsistent limit (length (decide w limit now d).0) (decide w limit now d).1
unfolding decide
decide-IsConsistent w limit now [] = ground arith
decide-IsConsistent w limit now (h ∷ hs) = elim (Bool-cases (leb limit (length (h ∷ hs)))) [
  | inl full ↦ rw full (refl, (refl, leb→le limit (length (h ∷ hs)) full, omega arith))
  | inr room ↦ rw room (
    refl,
    (omega (arith, leb-false→lt limit (length (h ∷ hs)) room, length-append hs (now ∷ [])), refl),
  )
]

expire_le : (w now : ℕ) (ts : List ℕ) → length (expire w now ts) ≤ length ts
unfolding expire
expire_le w now [] = omega arith
expire_le w now (t ∷ ts) = ground (arith, expire_le w now ts)

expire_head : (w now h : ℕ) (hs : List ℕ) → h + w ≤ now → length (expire w now (h ∷ hs)) ≤ length hs
unfolding expire
expire_head w now h hs le = ground (arith, expire_le w now hs)

-- The refusal, written out.
abbrev refusal : ℕ → ℕ → ℕ → ℕ → RateLimitResult
refusal w limit now h = record {
  allowed = false;
  limit = limit;
  remaining = 0;
  retry_after = max 1 ((h + w - now) / second + 1);
}

decide_full :
    (w limit now h : ℕ) (hs : List ℕ)
    → verdict (decide w limit now (h ∷ hs)).1 ≡ false
    → (decide w limit now (h ∷ hs) ≡ (h ∷ hs, returned (refusal w limit now h)))
      × (limit ≤ length (h ∷ hs))
unfolding decide
decide_full w limit now h hs refused = elim (Bool-cases (leb limit (length (h ∷ hs)))) [
  | inl full ↦ (rw full, leb→le limit (length (h ∷ hs)) full)
  | inr room ↦ absurd (true-ne-false (rw room at refused))
]

abbrev pub wait_of : Outcome → ℕ
wait_of (returned r) = r.retry_after
wait_of index_error = 0

-- A deque no longer than the limit has room again after the wait that a refusal announces.
decide_retry :
    (w limit now later : ℕ) (d : List ℕ)
    → 1 ≤ limit
    → length d ≤ limit
    → verdict (decide w limit now d).1 ≡ false
    → now + wait_of (decide w limit now d).1 * second ≤ later
    → verdict (decide w limit later (expire w later (decide w limit now d).0)).1 ≡ true
decide_retry w limit now later [] pos le refused wait =
    absurd (ground (arith, decide-verdict w limit now []))
decide_retry w limit now later (h ∷ hs) pos le refused wait =
    let (e, full) = decide_full w limit now h hs refused in
    rw e (
      decide-verdict w limit later (expire w later (h ∷ hs))
      ∙ lt→ltb _ _ (omega (arith, expire_head w later h hs (expired (rw e at wait)))))
  where
    expired : now + max 1 ((h + w - now) / second + 1) * second ≤ later → h + w ≤ later
    expired long = omega arith

-- If a call with a positive limit is refused, and the key's hits in the window were no more than
-- the limit, then a client that waits the announced `retry_after` seconds or longer is admitted,
-- if none of its other calls comes between.
pub check_retry :
    (l : Limiter) (k limit now later : ℕ)
    → 1 ≤ limit
    → length (expire l.window now (get k l.hits)) ≤ limit
    → verdict (check l k limit now).1 ≡ false
    → now + wait_of (check l k limit now).1 * second ≤ later
    → verdict (check (check l k limit now).0 k limit later).1 ≡ true
unfolding check
check_retry l k limit now later pos le refused wait =
    ap (λ d. verdict (decide l.window limit later (expire l.window later d)).1)
      (get-put_self k _ l.hits)
    ∙ decide_retry l.window limit now later (expire l.window now (get k l.hits)) pos le refused wait

-- Every call returns consistent fields: `limit` is the one asked for; an admitted call leaves
-- `limit` less the hits now held, a refused one finds at least `limit` hits and names a wait of
-- a second or more. With a positive limit no call raises.
pub check-IsConsistent :
    (l : Limiter) (k limit now : ℕ)
    → IsConsistent limit (length (get k (check l k limit now).0.hits)) (check l k limit now).1
unfolding check
check-IsConsistent l k limit now =
    subst
      (λ d.
        IsConsistent limit (length d)
          (decide l.window limit now (expire l.window now (get k l.hits))).1)
      (sym (get-put_self k _ l.hits))
      (decide-IsConsistent l.window limit now (expire l.window now (get k l.hits)))

fresh : (w limit now : ℕ) → 1 ≤ limit → verdict (decide w limit now (expire w now [])).1 ≡ true
unfolding decide expire
fresh w limit now pos = ground arith

-- `reset(key)` forgets that key's hits and keeps every other key's; a call for it with a positive
-- limit is then admitted.
pub reset-check :
    (l : Limiter) (k j limit now : ℕ)
    → 1 ≤ limit
    → (verdict (check (reset l (some k)) k limit now).1 ≡ true)
      × (get j (reset l (some k)).hits ≡ (if k == j then [] else get j l.hits))
unfolding check reset
reset-check l k j limit now pos = (
  ap (λ d. verdict (decide l.window limit now (expire l.window now d)).1) (get-remove_self k l.hits)
      ∙ fresh l.window limit now pos,
  elim (Bool-cases (k == j)) [
    | inl same ↦
        rw same
          (ap (λ i. get i (remove k l.hits)) (sym ((==_iff k j).0 same)) ∙ get-remove_self k l.hits)
    | inr other ↦ rw other (get-remove_ne k j l.hits (ground arith))
  ],
)
