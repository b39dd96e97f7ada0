-- ===== src/Base/Dicts.antt =====
-- Dictionaries with texts as keys, in the order in which the keys were first put in.
use shiden_api.Base.Tests.{if◌then◌else◌}
use shiden_api.Base.Text.{Text, text_eq}
use mathlib.Core.Bool.{Bool, true, false}
use mathlib.Core.List.{List, [], ◌∷◌}
use mathlib.Core.Option.{Option, none, some}

abbrev pub Dict : Type 0 → Type 0
Dict A = List (Text × A)

module _ {A : Type 0} where
  abbrev pub find_entry : Text → Dict A → Option A
  find_entry k [] = none
  find_entry k ((l, v) ∷ d) = if text_eq l k then some v else find_entry k d

  -- `d[k] = v`
  abbrev pub put_entry : Text → A → Dict A → Dict A
  put_entry k v [] = (k, v) ∷ []
  put_entry k v ((l, w) ∷ d) = if text_eq l k then (k, v) ∷ d else (l, w) ∷ put_entry k v d

  -- `k in d`
  abbrev pub has_entry : Text → Dict A → Bool
  has_entry k [] = false
  has_entry k ((l, v) ∷ d) = if text_eq l k then true else has_entry k d

  -- `d.update(new)`
  abbrev pub update : Dict A → Dict A → Dict A
  update [] d = d
  update ((k, v) ∷ new) d = update new (put_entry k v d)

  -- `for k, v in new.items(): if k not in d: d[k] = v`
  abbrev pub add_missing : Dict A → Dict A → Dict A
  add_missing [] d = d
  add_missing ((k, v) ∷ new) d = add_missing new (if has_entry k d then d else put_entry k v d)
