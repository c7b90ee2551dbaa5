-- ===== src/KeyWatcher/Table.antt =====
-- How often a channel stands in the table of watched keys, and how many entries the table has.

use gitlab_workhorse.Base.{
  ℕ, ◌+◌, ◌-◌, ◌≡◌, refl, ◌≢◌, List, [], ◌∷◌, ◌++◌, none, false, arith, ◌==◌, if◌then◌else◌, length,
  total,
}
use gitlab_workhorse.Base.Text.{Text, text_eq, text_eq_iff}
use gitlab_workhorse.Base.Dict.{
  Dict, lookup, insert, delete, HasDistinctKeys, lookup-insert, lookup-delete,
}
use gitlab_workhorse.KeyWatcher.{chans, remove, contains}

unfoldable pub count : ℕ → List ℕ → ℕ
count c [] = 0
count c (d ∷ ds) = (if c == d then 1 else 0) + count c ds

pub count-append_one :
    (c d : ℕ) (ds : List ℕ) → count c (ds ++ d ∷ []) ≡ count c ds + (if c == d then 1 else 0)
unfolding count
count-append_one c d [] = omega arith
count-append_one c d (e ∷ ds) = omega (arith, count-append_one c d ds)

pub count-remove :
    (c d : ℕ) (ds : List ℕ) → count c (remove d ds) ≡ count c ds - (if c == d then 1 else 0)
unfolding count remove
count-remove c d [] = ground arith
count-remove c d (e ∷ ds) = ground (arith, count-remove c d ds)

pub length-remove :
    (c : ℕ) (ds : List ℕ) → length ds ≡ length (remove c ds) + (if contains c ds then 1 else 0)
unfolding remove contains
length-remove c [] = ground arith
length-remove c (e ∷ ds) = ground (arith, length-remove c ds)

pub count-contains : (c : ℕ) (ds : List ℕ) → contains c ds ≡ false → count c ds ≡ 0
unfolding count contains
count-contains c [] h = refl
count-contains c (e ∷ ds) h = ground (arith, count-contains c ds)

pub none_of_count : (ds : List ℕ) → ((c : ℕ) → count c ds ≡ 0) → ds ≡ []
unfolding count
none_of_count [] h = refl
none_of_count (d ∷ ds) h = absurd (ground (arith, h d))

-- All entries of the table.
abbrev pub entries : Dict (List ℕ) → ℕ
entries = total (λ e. length e.1)

pub entries-insert :
    (k : Text) (cs : List ℕ) (m : Dict (List ℕ))
    → entries (insert k cs m) + length (chans k m) ≡ entries m + length cs
unfolding insert lookup
entries-insert k cs [] = omega arith
entries-insert k cs ((j, ds) ∷ m) = ground (arith, entries-insert k cs m)

delete_absent : (k : Text) (m : Dict (List ℕ)) → lookup k m ≡ none → delete k m ≡ m
unfolding delete lookup
delete_absent k [] h = refl
delete_absent k ((j, ds) ∷ m) h = ground (arith, delete_absent k m)

pub entries-delete :
    (k : Text) (m : Dict (List ℕ))
    → HasDistinctKeys m
    → entries (delete k m) + length (chans k m) ≡ entries m
unfolding delete lookup
entries-delete k [] h = omega arith
entries-delete k ((j, ds) ∷ m) h =
    ground (arith, entries-delete k m h.1, text_eq_iff j k, delete_absent k m, h.0)

pub HasDistinctKeys-insert :
    (k : Text) (cs : List ℕ) (m : Dict (List ℕ))
    → HasDistinctKeys m
    → HasDistinctKeys (insert k cs m)
unfolding insert lookup
HasDistinctKeys-insert k cs [] h = (refl, tt)
HasDistinctKeys-insert k cs ((j, ds) ∷ m) h = ground (
  arith,
  HasDistinctKeys-insert k cs m h.1,
  lookup-insert k j cs m,
  text_eq_iff j k,
  text_eq_iff k j,
)

pub HasDistinctKeys-delete :
    (k : Text) (m : Dict (List ℕ)) → HasDistinctKeys m → HasDistinctKeys (delete k m)
unfolding delete lookup
HasDistinctKeys-delete k [] h = tt
HasDistinctKeys-delete k ((j, ds) ∷ m) h =
    ground (arith, HasDistinctKeys-delete k m h.1, lookup-delete k j m)

-- No key is kept with no channel.
abbrev pub HasNoEmptyEntry : Dict (List ℕ) → Type 0
HasNoEmptyEntry [] = Unit
HasNoEmptyEntry ((k, cs) ∷ m) = (cs ≢ []) × HasNoEmptyEntry m

pub HasNoEmptyEntry-insert :
    (k : Text) (cs : List ℕ) (m : Dict (List ℕ))
    → cs ≢ []
    → HasNoEmptyEntry m
    → HasNoEmptyEntry (insert k cs m)
unfolding insert
HasNoEmptyEntry-insert k cs [] h n = (h, tt)
HasNoEmptyEntry-insert k cs ((j, ds) ∷ m) h n = ground (arith, HasNoEmptyEntry-insert k cs m h n.1)

pub HasNoEmptyEntry-delete :
    (k : Text) (m : Dict (List ℕ)) → HasNoEmptyEntry m → HasNoEmptyEntry (delete k m)
unfolding delete
HasNoEmptyEntry-delete k [] n = tt
HasNoEmptyEntry-delete k ((j, ds) ∷ m) n = ground (arith, HasNoEmptyEntry-delete k m n.1)

-- A table in which no channel stands, and no key without one, is empty.
pub empty_of_counts :
    (m : Dict (List ℕ))
    → HasNoEmptyEntry m
    → ((k : Text) (c : ℕ) → count c (chans k m) ≡ 0)
    → m ≡ []
unfolding lookup
empty_of_counts [] n h = refl
empty_of_counts ((k, cs) ∷ m) n h =
    absurd (n.0 (none_of_count cs (λ c. ground (arith, h k c, text_eq_iff k k))))

pub chans-insert :
    (k j : Text) (cs : List ℕ) (m : Dict (List ℕ))
    → chans j (insert k cs m) ≡ (if text_eq k j then cs else chans j m)
chans-insert k j cs m = ground (arith, lookup-insert k j cs m)

pub chans-delete :
    (k j : Text) (m : Dict (List ℕ))
    → chans j (delete k m) ≡ (if text_eq k j then [] else chans j m)
chans-delete k j m = ground (arith, lookup-delete k j m)
