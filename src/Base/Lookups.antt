-- ===== src/Base/Lookups.antt =====
-- Looking up in the dictionaries of Base/Dicts.
use shiden_api.Base.Text.{Text, text_eq, text_eq_refl, text_eq_sound}
use shiden_api.Base.Dicts.{Dict, find_entry, put_entry, has_entry, update, add_missing}
use shiden_api.Base.{
  if◌then◌else◌, Bool-cases, ◌≡◌, refl, sym, ap, subst, ◌∙◌, Option-cases, Bool, true, false, [],
  ◌∷◌, Option, none, some, inl, inr,
}

differ : {k l m : Text} → text_eq m l ≡ false → m ≡ k → l ≡ k → ⊥
differ {k} {l} {m} n e f = cc (n, e, f, text_eq_refl l)

-- `new` if it is there, else `old`.
abbrev pub or_else {ℓ} : {A : Type ℓ} → Option A → Option A → Option A
or_else none old = old
or_else (some new) old = some new

module _ {A : Type 0} where
  pub or_else_assoc : (a b c : Option A) → or_else (or_else a b) c ≡ or_else a (or_else b c)
  or_else_assoc (some x) b c = refl
  or_else_assoc none b c = refl

  abbrev pub one_of : Bool → A → Option A
  one_of true v = some v
  one_of false v = none

  find_entry-cons :
      (k l : Text) (v : A) (d : Dict A)
      → find_entry k ((l, v) ∷ d) ≡ or_else (one_of (text_eq l k) v) (find_entry k d)
  find_entry-cons k l v d = go (text_eq l k)
    where
      go :
          (b : Bool)
          → (if b then some v else find_entry k d) ≡ or_else (one_of b v) (find_entry k d)
      go true = refl
      go false = refl

  pub find_entry-put_entry :
      (k l : Text) (v : A) (d : Dict A)
      → find_entry k (put_entry l v d) ≡ or_else (one_of (text_eq l k) v) (find_entry k d)
  find_entry-put_entry k l v [] = find_entry-cons k l v []
  find_entry-put_entry k l v ((m, w) ∷ d) = elim (Bool-cases (text_eq m l)) [
    | inl e ↦ rw e (
        find_entry-cons k l v d
        ∙ same (text_eq l k) (text_eq m k) (ap (λ t. text_eq t k) (text_eq_sound m l e)))
    | inr n ↦ rw n (
        find_entry-cons k m w (put_entry l v d)
        ∙ ap (or_else (one_of (text_eq m k) w)) (find_entry-put_entry k l v d)
        ∙ other (text_eq m k) (text_eq l k) n refl refl
        ∙ ap (or_else (one_of (text_eq l k) v)) (sym (find_entry-cons k m w d)))
  ]
    where
      same :
          (b c : Bool)
          → c ≡ b
          → or_else (one_of b v) (find_entry k d)
            ≡ or_else (one_of b v) (if c then some w else find_entry k d)
      same true c e = refl
      same false true e = cc
      same false false e = refl

      other :
          (b c : Bool)
          → text_eq m l ≡ false
          → text_eq m k ≡ b
          → text_eq l k ≡ c
          → or_else (one_of b w) (or_else (one_of c v) (find_entry k d))
            ≡ or_else (one_of c v) (or_else (one_of b w) (find_entry k d))
      other true true n e f = absurd (differ n (text_eq_sound m k e) (text_eq_sound l k f))
      other true false n e f = refl
      other false true n e f = refl
      other false false n e f = refl

  abbrev pub is_there : Option A → Bool
  is_there none = false
  is_there (some x) = true

  pub has_entry-find_entry : (k : Text) (d : Dict A) → has_entry k d ≡ is_there (find_entry k d)
  has_entry-find_entry k [] = refl
  has_entry-find_entry k ((l, v) ∷ d) = elim (Bool-cases (text_eq l k)) [
    | inl e ↦ rw e refl
    | inr n ↦ rw n (has_entry-find_entry k d)
  ]

  -- Each key stands once.
  abbrev pub IsDict : Dict A → Type 0
  IsDict [] = Unit
  IsDict ((k, v) ∷ d) = (find_entry k d ≡ none) × IsDict d

  pub put_entry-IsDict : (k : Text) (v : A) (d : Dict A) → IsDict d → IsDict (put_entry k v d)
  put_entry-IsDict k v [] h = (refl, tt)
  put_entry-IsDict k v ((l, w) ∷ d) h = elim (Bool-cases (text_eq l k)) [
    | inl e ↦ rw e (subst (λ t. find_entry t d ≡ none) (text_eq_sound l k e) h.0, h.1)
    | inr n ↦ rw n (
      find_entry-put_entry l k v d ∙ fresh (text_eq k l) n refl ∙ h.0,
      put_entry-IsDict k v d h.1,
    )
  ]
    where
      fresh :
          (b : Bool)
          → text_eq l k ≡ false
          → text_eq k l ≡ b
          → or_else (one_of b v) (find_entry l d) ≡ find_entry l d
      fresh true n e = absurd (differ n refl (text_eq_sound k l e))
      fresh false n e = refl

  -- `update` prefers the new entry, `add_missing` the old one.
  pub find_entry-update :
      (k : Text) (new d : Dict A)
      → IsDict new
      → find_entry k (update new d) ≡ or_else (find_entry k new) (find_entry k d)
  find_entry-update k [] d h = refl
  find_entry-update k ((l, v) ∷ new) d h =
      find_entry-update k new (put_entry l v d) h.1
      ∙ ap (or_else (find_entry k new)) (find_entry-put_entry k l v d)
      ∙ go (text_eq l k) refl (find_entry k new) refl
      ∙ ap (λ o. or_else o (find_entry k d)) (sym (find_entry-cons k l v new))
    where
      go :
          (b : Bool)
          → text_eq l k ≡ b
          → (o : Option A) → find_entry k new ≡ o
          → or_else o (or_else (one_of b v) (find_entry k d))
            ≡ or_else (or_else (one_of b v) o) (find_entry k d)
      go true e none f = refl
      go true e (some x) f = absurd (taken (ap (λ t. find_entry t new) (text_eq_sound l k e)))
        where
          taken : find_entry l new ≡ find_entry k new → ⊥
          taken g = cc (h.0, f, g)
      go false e none f = refl
      go false e (some x) f = refl

  pub find_entry-add_missing :
      (k : Text) (new d : Dict A)
      → find_entry k (add_missing new d) ≡ or_else (find_entry k d) (find_entry k new)
  find_entry-add_missing k [] d = none_last (find_entry k d)
    where
      none_last : (o : Option A) → o ≡ or_else o none
      none_last none = refl
      none_last (some x) = refl
  find_entry-add_missing k ((l, v) ∷ new) d = elim (Option-cases (find_entry l d)) [
    | inl n ↦ rw (has_entry-find_entry l d ∙ ap is_there n) (
        find_entry-add_missing k new (put_entry l v d)
        ∙ ap (λ o. or_else o (find_entry k new)) (find_entry-put_entry k l v d)
        ∙ added (text_eq l k) refl n
        ∙ ap (or_else (find_entry k d)) (sym (find_entry-cons k l v new)))
    | inr (x, e) ↦ rw (has_entry-find_entry l d ∙ ap is_there e) (
        find_entry-add_missing k new d
        ∙ kept_old (text_eq l k) refl e
        ∙ ap (or_else (find_entry k d)) (sym (find_entry-cons k l v new)))
  ]
    where
      added :
          (b : Bool)
          → text_eq l k ≡ b
          → find_entry l d ≡ none
          → or_else (or_else (one_of b v) (find_entry k d)) (find_entry k new)
            ≡ or_else (find_entry k d) (or_else (one_of b v) (find_entry k new))
      added true e n =
          ap (λ o. or_else o (or_else (some v) (find_entry k new)))
            (sym n ∙ ap (λ t. find_entry t d) (text_eq_sound l k e))
      added false e n = refl

      kept_old :
          {x : A}
          → (b : Bool) → text_eq l k ≡ b
          → find_entry l d ≡ some x
          → or_else (find_entry k d) (find_entry k new)
            ≡ or_else (find_entry k d) (or_else (one_of b v) (find_entry k new))
      kept_old {x} true e f =
          let g = sym (ap (λ t. find_entry t d) (text_eq_sound l k e)) ∙ f in
          ap (λ o. or_else o (find_entry k new)) g
          ∙ sym (ap (λ o. or_else o (or_else (some v) (find_entry k new))) g)
      kept_old false e f = refl
