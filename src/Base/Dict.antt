-- ===== src/Base/Dict.antt =====
-- Go maps with string keys, as association lists.
use mathlib.Core.Path.{◌≡◌, refl}
use mathlib.Core.Option.{Option, none, some}
use mathlib.Core.List.{List, [], ◌∷◌}
use native.Mathlib.Omega.{arith}
use mathlib.Core.Logic.{inl, inr}
use gitlab_workhorse.Base.Tests.{if◌then◌else◌, Bool-cases}
use gitlab_workhorse.Base.Text.{Text, text_eq, text_eq_iff}

abbrev pub Dict {ℓ} : Type ℓ → Type ℓ
Dict V = List (Text × V)

module _ {ℓ} {V : Type ℓ} where
  unfoldable pub lookup : Text → Dict V → Option V
  lookup k [] = none
  lookup k ((j, v) ∷ m) = if text_eq j k then some v else lookup k m

  unfoldable pub insert : Text → V → Dict V → Dict V
  insert k v [] = (k, v) ∷ []
  insert k v ((j, w) ∷ m) = if text_eq j k then (k, v) ∷ m else (j, w) ∷ insert k v m

  unfoldable pub delete : Text → Dict V → Dict V
  delete k [] = []
  delete k ((j, w) ∷ m) = if text_eq j k then delete k m else (j, w) ∷ delete k m

  pub lookup-insert :
      (k j : Text) (v : V) (m : Dict V)
      → lookup j (insert k v m) ≡ (if text_eq k j then some v else lookup j m)
  unfolding lookup insert
  lookup-insert k j v [] = refl
  lookup-insert k j v ((i, w) ∷ m) =
      ground (arith, text_eq_iff k j, text_eq_iff i k, text_eq_iff i j, lookup-insert k j v m)

  pub lookup-delete :
      (k j : Text) (m : Dict V) → lookup j (delete k m) ≡ (if text_eq k j then none else lookup j m)
  unfolding lookup delete
  lookup-delete k j [] = ground arith
  lookup-delete k j ((i, w) ∷ m) =
      ground (arith, text_eq_iff k j, text_eq_iff i k, text_eq_iff i j, lookup-delete k j m)

  pub delete_absent : (k : Text) (m : Dict V) → lookup k m ≡ none → delete k m ≡ m
  unfolding lookup delete
  delete_absent k [] h = refl
  delete_absent k ((i, w) ∷ m) h = ground (arith, delete_absent k m)

  -- No key stands twice.
  abbrev pub HasDistinctKeys : Dict V → Type ℓ
  HasDistinctKeys [] = Unit
  HasDistinctKeys ((k, v) ∷ m) = (lookup k m ≡ none) × HasDistinctKeys m

  -- The loop that sets each key of one map in another.
  unfoldable pub insert_all : Dict V → Dict V → Dict V
  insert_all [] h = h
  insert_all ((k, v) ∷ m) h = insert_all m (insert k v h)

  abbrev pub or_else : Option V → Option V → Option V
  or_else (some v) old = some v
  or_else none old = old

  pub lookup_same : (i k : Text) (m : Dict V) → i ≡ k → lookup i m ≡ none → lookup k m ≡ none
  lookup_same i k m e h = ground (arith, e, h)

  pub lookup-insert_all :
      (k : Text) (m h : Dict V)
      → HasDistinctKeys m
      → lookup k (insert_all m h) ≡ or_else (lookup k m) (lookup k h)
  unfolding insert_all lookup
  lookup-insert_all k [] h distinct = refl
  lookup-insert_all k ((i, u) ∷ m) h distinct =
      let rest = lookup-insert_all k m (insert i u h) distinct.1 in
      let write = lookup-insert i k u h in
      elim (Bool-cases (text_eq i k)) [
        | inr differ ↦ ground (arith, rest, write, differ)
        | inl same ↦
            let gone = lookup_same i k m ((text_eq_iff i k).0 same) distinct.0 in
            ground (arith, rest, write, same, gone)
      ]
