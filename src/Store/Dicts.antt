-- ===== src/Store/Dicts.antt =====
-- store.py: the dictionary of jobs, keyed by the ids of the records, and counts over it.
use scooling_lab.Base.{
  ℕ, ◌+◌, String, Bool, true, false, ◌≡◌, refl, arith, [], ◌∷◌, ◌++◌, none, some, eq_iff, eq_refl,
  Dict, lookup, insert, lookup-insert, values, count_if, find_first,
}
use scooling_lab.Store.Records.{TrainingJobRecord}

-- Every record stands under its own id, and no id twice.
abbrev pub IsKeyed : Dict TrainingJobRecord → Type 0
IsKeyed [] = Unit
IsKeyed ((k, r) ∷ d) = (r.id ≡ k) × (lookup k d ≡ none) × IsKeyed d

abbrev pub bit : Bool → ℕ
bit true = 1
bit false = 0

pub insert-IsKeyed :
    (k : String) (r : TrainingJobRecord) (d : Dict TrainingJobRecord)
    → r.id ≡ k
    → IsKeyed d
    → IsKeyed (insert k r d)
unfolding insert lookup
insert-IsKeyed k r [] e h = (e, refl, tt)
insert-IsKeyed k r ((j, x) ∷ d) e h =
    ground (arith, insert-IsKeyed k r d e h.2, lookup-insert k j r d, eq_iff j k, eq_iff k j)

-- The record that a search over the values finds is the one under its id.
pub find_first-lookup :
    (q : TrainingJobRecord → Bool) (r : TrainingJobRecord) (d : Dict TrainingJobRecord)
    → IsKeyed d
    → find_first q (values d) ≡ some r
    → (lookup r.id d ≡ some r) × (q r ≡ true)
unfolding lookup
find_first-lookup q r [] h e = cc
find_first-lookup q r ((j, x) ∷ d) h e =
    ground (arith, find_first-lookup q r d h.2, eq_iff j r.id, eq_iff x.id r.id, eq_refl r.id)

-- A write to a key that is there changes a count by that record alone.
pub count_if-insert :
    (q : TrainingJobRecord → Bool) (k : String) (old new : TrainingJobRecord)
    (d : Dict TrainingJobRecord)
    → lookup k d ≡ some old
    → count_if q (values (insert k new d)) + bit (q old) ≡ count_if q (values d) + bit (q new)
unfolding insert lookup
count_if-insert q k old new [] h = cc
count_if-insert q k old new ((j, x) ∷ d) h = ground (arith, count_if-insert q k old new d)

pub values-append : (d e : Dict TrainingJobRecord) → values (d ++ e) ≡ values d ++ values e
values-append [] e = refl
values-append ((k, r) ∷ d) e = cc (values-append d e)

pub lookup-id :
    (k : String) (r : TrainingJobRecord) (d : Dict TrainingJobRecord)
    → IsKeyed d
    → lookup k d ≡ some r
    → r.id ≡ k
unfolding lookup
lookup-id k r [] h e = cc
lookup-id k r ((j, x) ∷ d) h e = ground (arith, lookup-id k r d h.2, eq_iff j k)
