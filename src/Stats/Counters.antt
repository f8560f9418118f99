-- ===== src/Stats/Counters.antt =====
-- `bump` and `update_max` on the entries of a `std::map`.
use accelsim_lite.Prelude.{
  ℕ, ◌≡◌, Option, none, some, [], ◌∷◌, if◌then◌else◌, add64, max, refl, arith,
}
use Prim.Native.Nat.{Ordering}
use accelsim_lite.Stats.{CounterMap, bump, find, update_max, assign}
use accelsim_lite.Prelude.Text.{
  Text, text_compare, text_eq, text_eq_iff, text_compare_trans, eq_of_text_compare,
  lt_of_text_compare_gt,
}

-- The keys rise strictly, and every key is above `low`.
abbrev Above : Text → CounterMap → Type 0
Above low [] = Unit
Above low ((name, value) ∷ values) = (text_compare low name ≡ Ordering.lt) × Above name values

-- The entries of a `std::map` stand in the order of their keys, each key once.
abbrev pub IsMap : CounterMap → Type 0
IsMap [] = Unit
IsMap ((name, value) ∷ values) = Above name values

-- The value of a key, 0 if it is missing.
abbrev pub value_of : Option ℕ → ℕ
value_of none = 0
value_of (some value) = value

Above-of_lt :
    (key name : Text) (values : CounterMap)
    → text_compare key name ≡ Ordering.lt
    → Above name values
    → Above key values
Above-of_lt key name [] h a = tt
Above-of_lt key name ((above, value) ∷ values) h a = (text_compare_trans key name above h a.0, a.1)

find-Above : (key : Text) (values : CounterMap) → Above key values → find values key ≡ none
unfolding find
find-Above key [] a = refl
find-Above key ((name, value) ∷ values) a =
    ground (arith, find-Above key values (Above-of_lt key name values a.0 a.1))

IsMap-of_Above : (low : Text) (values : CounterMap) → Above low values → IsMap values
IsMap-of_Above low [] a = tt
IsMap-of_Above low ((name, value) ∷ values) a = a.1

same_test : (a b : Text) → text_eq a b ≡ text_eq b a
same_test a b = ground (arith, text_eq_iff a b, text_eq_iff b a)

-- `bump` adds to the value of its key, modulo 2 ^ 64, and leaves every other key as it is.
find-bump :
    (values : CounterMap) (key other : Text) (amount : ℕ)
    → IsMap values
    → find (bump values key amount) other ≡ (
        if text_eq key other
        then some (add64 (value_of (find values key)) amount)
        else find values other)
unfolding find bump
find-bump [] key other amount m = ground (arith, same_test other key)
find-bump ((name, value) ∷ values) key other amount m = ground (
  arith,
  text_eq_iff key name,
  text_eq_iff other name,
  text_eq_iff key other,
  same_test other key,
  find-Above key values,
  Above-of_lt key name values,
  find-bump values key other amount (IsMap-of_Above name values m),
)

find-assign :
    (values : CounterMap) (key other : Text) (candidate : ℕ)
    → find (assign values key candidate) other
      ≡ (if text_eq key other then some candidate else find values other)
unfolding find assign
find-assign [] key other candidate = ground (arith, same_test other key)
find-assign ((name, value) ∷ values) key other candidate = ground (
  arith,
  text_eq_iff key name,
  text_eq_iff other name,
  text_eq_iff key other,
  same_test other key,
  find-assign values key other candidate,
)

-- `update_max` raises the value of its key to the candidate, and leaves every other key as it is.
find-update_max :
    (values : CounterMap) (key other : Text) (candidate : ℕ)
    → find (update_max values key candidate) other ≡ (
        if text_eq key other
        then some (max (value_of (find values key)) candidate)
        else find values other)
unfolding update_max
find-update_max values key other candidate =
    ground
      (arith, text_eq_iff key other, find-assign values key other candidate, text_eq_iff other key)

bump-Above :
    (low key : Text) (values : CounterMap) (amount : ℕ)
    → text_compare low key ≡ Ordering.lt
    → Above low values
    → Above low (bump values key amount)
unfolding bump
bump-Above low key [] amount h a = ground arith
bump-Above low key ((name, value) ∷ values) amount h a = ground (
  arith,
  eq_of_text_compare key name,
  lt_of_text_compare_gt key name,
  bump-Above name key values amount,
)

assign-Above :
    (low key : Text) (values : CounterMap) (candidate : ℕ)
    → text_compare low key ≡ Ordering.lt
    → Above low values
    → Above low (assign values key candidate)
unfolding assign
assign-Above low key [] candidate h a = ground arith
assign-Above low key ((name, value) ∷ values) candidate h a = ground (
  arith,
  eq_of_text_compare key name,
  lt_of_text_compare_gt key name,
  assign-Above name key values candidate,
)

assign-IsMap :
    (values : CounterMap) (key : Text) (candidate : ℕ)
    → IsMap values
    → IsMap (assign values key candidate)
unfolding assign
assign-IsMap [] key candidate m = tt
assign-IsMap ((name, value) ∷ values) key candidate m =
    ground (arith, lt_of_text_compare_gt key name, assign-Above name key values candidate)

bump-IsMap :
    (values : CounterMap) (key : Text) (amount : ℕ) → IsMap values → IsMap (bump values key amount)
unfolding bump
bump-IsMap [] key amount m = tt
bump-IsMap ((name, value) ∷ values) key amount m =
    ground (arith, lt_of_text_compare_gt key name, bump-Above name key values amount)

update_max-IsMap :
    (values : CounterMap) (key : Text) (candidate : ℕ)
    → IsMap values
    → IsMap (update_max values key candidate)
unfolding update_max
update_max-IsMap values key candidate m = ground (arith, assign-IsMap values key candidate)

-- `bump` and `update_max` keep the entries in the strict order of their keys.
counters-IsMap :
    (values : CounterMap) (key : Text) (n : ℕ)
    → IsMap values
    → IsMap (bump values key n) × IsMap (update_max values key n)
counters-IsMap values key n m = (bump-IsMap values key n m, update_max-IsMap values key n m)
