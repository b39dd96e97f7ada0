-- ===== src/RateLimit/Refines.antt =====
-- The limiter against its contract: a request is admitted exactly if fewer than `limit` requests
-- of its key were admitted in the window that ends now.
use shiden_api.Base.{
  ℕ, ◌≤◌, ◌≡◌, refl, sym, ap, ap₂, subst, ◌∙◌, Bool, true, false, List, [], ◌∷◌, ◌++◌, ◌==◌, arith,
  ltb, length, keep, inl, inr, Bool-cases, if◌then◌else◌,
}
use shiden_api.RateLimit.{Limiter, new_limiter, expire, decide, check, verdict}
use shiden_api.RateLimit.HitMap.{get, get-put}
use shiden_api.RateLimit.Window.{
  in_window, IsAscending, IsAscending-append, IsAscending-mono, expire-expire, expire-append,
  expire-eq-keep,
}

-- One call of `check`, with the clock that it reads.
pub record Event : Type 0 where
  pub key : ℕ
  pub limit : ℕ
  pub now : ℕ

-- The clock never goes back.
abbrev pub IsChronological : ℕ → List Event → Type 0
IsChronological last [] = Unit
IsChronological last (e ∷ es) = (last ≤ e.now) × IsChronological e.now es

unfoldable pub run : Limiter → List Event → List Bool
run l [] = []
run l (e ∷ es) = let (l', outcome) = check l e.key e.limit e.now in verdict outcome ∷ run l' es

-- The contract keeps every admission of every key for ever.
abbrev pub Log : Type 0
Log = ℕ → List ℕ

abbrev pub record_hit : Log → ℕ → ℕ → Log
record_hit log k now j = if k == j then log j ++ now ∷ [] else log j

abbrev pub admits : ℕ → Log → Event → Bool
admits w log e = ltb (length (keep (in_window w e.now) (log e.key))) e.limit

abbrev pub next_log : ℕ → Log → Event → Log
next_log w log e = if admits w log e then record_hit log e.key e.now else log

-- The times of the event's own key after it.
abbrev next_times : ℕ → Log → Event → List ℕ
next_times w log e = if admits w log e then log e.key ++ e.now ∷ [] else log e.key

unfoldable pub spec_run : ℕ → Log → List Event → List Bool
spec_run w log [] = []
spec_run w log (e ∷ es) = admits w log e ∷ spec_run w (next_log w log e) es

next_log_lem :
    (w : ℕ) (log : Log) (e : Event) (k : ℕ)
    → next_log w log e k ≡ (if e.key == k then next_times w log e else log k)
next_log_lem w log e k = ground arith

-- The deques hold what of the log has not expired.
record Tracks (w : ℕ) (l : Limiter) (log : Log) (last : ℕ) : Type 0 where
  window_is : l.window ≡ w
  deques : (k now : ℕ) → last ≤ now → expire w now (get k l.hits) ≡ expire w now (log k)
  ascending : (k : ℕ) → IsAscending last (log k)

pub decide-verdict :
    (w limit now : ℕ) (d : List ℕ) → verdict (decide w limit now d).1 ≡ ltb (length d) limit
unfolding decide
decide-verdict w limit now [] = ground arith
decide-verdict w limit now (h ∷ hs) = ground arith

decide-deque :
    (w limit now : ℕ) (d : List ℕ)
    → (decide w limit now d).0 ≡ (if ltb (length d) limit then d ++ now ∷ [] else d)
unfolding decide
decide-deque w limit now [] = ground arith
decide-deque w limit now (h ∷ hs) = ground arith

module _ (w : ℕ) (w_pos : 1 ≤ w) {l : Limiter} {log : Log} {last : ℕ} (t : Tracks w l log last)
    (e : Event) (later : last ≤ e.now) where
  deque_is : expire l.window e.now (get e.key l.hits) ≡ keep (in_window w e.now) (log e.key)
  deque_is = rw t.window_is (
      t.deques e.key e.now later
      ∙ expire-eq-keep w e.now (log e.key)
          (IsAscending-mono e.now last (log e.key) later (t.ascending e.key)))

  check-verdict : verdict (check l e.key e.limit e.now).1 ≡ admits w log e
  unfolding check
  check-verdict = decide-verdict _ _ _ _ ∙ ap (λ d. ltb (length d) e.limit) deque_is

  expired : keep (in_window w e.now) (log e.key) ≡ expire w e.now (log e.key)
  expired = sym (
      expire-eq-keep w e.now (log e.key)
        (IsAscending-mono e.now last (log e.key) later (t.ascending e.key)))

  next_deque :
      (b : Bool)
      → (if b
          then keep (in_window w e.now) (log e.key) ++ e.now ∷ []
          else keep (in_window w e.now) (log e.key))
        ≡ expire w e.now (if b then log e.key ++ e.now ∷ [] else log e.key)
  next_deque true =
      ap (λ d. d ++ e.now ∷ []) expired ∙ sym (expire-append w e.now (log e.key) w_pos)
  next_deque false = expired

  -- The deque of the key that was checked.
  own_deque :
      (decide l.window e.limit e.now (expire l.window e.now (get e.key l.hits))).0
      ≡ expire w e.now (next_times w log e)
  own_deque =
      decide-deque l.window e.limit e.now (expire l.window e.now (get e.key l.hits))
      ∙ ap (λ d. if ltb (length d) e.limit then d ++ e.now ∷ [] else d) deque_is
      ∙ next_deque (admits w log e)

  check-deque :
      (k : ℕ)
      → get k (check l e.key e.limit e.now).0.hits
        ≡ (if e.key == k then expire w e.now (next_times w log e) else get k l.hits)
  unfolding check
  check-deque k =
      get-put e.key k _ l.hits ∙ ap (λ d. if e.key == k then d else get k l.hits) own_deque

  times-IsAscending :
      (b : Bool) → IsAscending e.now (if b then log e.key ++ e.now ∷ [] else log e.key)
  times-IsAscending true = IsAscending-append e.now last (log e.key) later (t.ascending e.key)
  times-IsAscending false = IsAscending-mono e.now last (log e.key) later (t.ascending e.key)

  log_deque :
      (k now : ℕ)
      → e.now ≤ now
      → expire w now (if e.key == k then expire w e.now (next_times w log e) else get k l.hits)
        ≡ expire w now (if e.key == k then next_times w log e else log k)
  log_deque k now h = elim (Bool-cases (e.key == k)) [
    | inl same ↦ rw same (expire-expire w e.now now (next_times w log e) h)
    | inr other ↦ rw other (t.deques k now (omega arith))
  ]

  log-IsAscending : (k : ℕ) → IsAscending e.now (if e.key == k then next_times w log e else log k)
  log-IsAscending k = elim (Bool-cases (e.key == k)) [
    | inl same ↦ rw same (times-IsAscending (admits w log e))
    | inr other ↦ rw other (IsAscending-mono e.now last (log k) later (t.ascending k))
  ]

  check-Tracks : Tracks w (check l e.key e.limit e.now).0 (next_log w log e) e.now
  check-Tracks = record {
    window_is = unfold check in t.window_is;
    deques = λ k now h.
        ap (expire w now) (check-deque k)
        ∙ log_deque k now h
        ∙ ap (expire w now) (sym (next_log_lem w log e k));
    ascending = λ k. subst (IsAscending e.now) (sym (next_log_lem w log e k)) (log-IsAscending k);
  }

run-eq-spec_run :
    (w : ℕ) (es : List Event) {l : Limiter} {log : Log} {last : ℕ}
    → 1 ≤ w
    → Tracks w l log last
    → IsChronological last es
    → run l es ≡ spec_run w log es
unfolding run spec_run
run-eq-spec_run w [] w_pos t c = refl
run-eq-spec_run w (e ∷ es) w_pos t c =
    ap₂ (λ b bs. b ∷ bs) (check-verdict w w_pos t e c.0)
      (run-eq-spec_run w es w_pos (check-Tracks w w_pos t e c.0) c.1)

abbrev pub no_hits : Log
no_hits k = []

-- On every sequence of calls with a clock that never goes back, a new limiter with a positive
-- window gives the verdicts of the contract, over all keys and limits.
pub limiter-refines :
    (w : ℕ) (es : List Event)
    → 1 ≤ w
    → IsChronological 0 es
    → run (new_limiter w) es ≡ spec_run w no_hits es
limiter-refines w es w_pos c = run-eq-spec_run w es w_pos fresh c
  where
    fresh : Tracks w (new_limiter w) no_hits 0
    fresh = record { window_is = refl; deques = λ k now h. unfold get in refl; ascending = λ k. tt }
