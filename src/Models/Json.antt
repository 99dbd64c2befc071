-- ===== src/Models/Json.antt =====
-- Decoded JSON values and Python's `==` on them. Numbers with a fraction are left out: no field of
-- the metadata that the program reads has one.
use mcu.Base.{ℕ, String, Bool, true, false, Option, none, some, ◌&&◌, ◌==◌, string_eq, nat_eq}
use mcu.Base.Int.{ℤ, pos, pos_part, neg_part}
use mcu.Base.{if◌then◌else◌, suc}

mutual
  pub data Value : Type 0 where
    null : Value
    boolean : Bool → Value
    number : ℤ → Value
    text : String → Value
    array : Items → Value
    object : Members → Value

  pub data Items : Type 0 where
    nil : Items
    cons : Value → Items → Items

  pub data Members : Type 0 where
    end : Members
    member : String → Value → Members → Members

find : String → Members → Option Value
find k end = none
find k (member j v ms) = if j == k then some v else find k ms

size : Members → ℕ
size end = 0
size (member j v ms) = suc (size ms)

-- `True == 1` and `False == 0`.
of_bool : Bool → ℤ
of_bool true = pos 1
of_bool false = pos 0

abbrev int_eqb : ℤ → ℤ → Bool
int_eqb a b = pos_part a == pos_part b && neg_part a == neg_part b

equal_number : ℤ → Value → Bool
unfolding of_bool
equal_number n (number m) = int_eqb n m
equal_number n (boolean b) = int_eqb n (of_bool b)
equal_number n _ = false

equal_text : String → Value → Bool
equal_text s (text t) = s == t
equal_text s _ = false

is_null : Value → Bool
is_null null = true
is_null _ = false

-- `v == w`; dictionaries are equal whatever the order of their keys.
unfoldable mutual
  unfolding is_null equal_number equal_text of_bool size find

  pub equal : Value → Value → Bool
  equal null w = is_null w
  equal (boolean b) w = equal_number (of_bool b) w
  equal (number n) w = equal_number n w
  equal (text s) w = equal_text s w
  equal (array xs) w = elim w [ array ys ↦ equal_items xs ys | _ ↦ false ]
  equal (object ms) w = elim w [ object ns ↦ size ms == size ns && equal_members ms ns | _ ↦ false ]

  equal_items : Items → Items → Bool
  equal_items nil ys = elim ys [ nil ↦ true | _ ↦ false ]
  equal_items (cons x xs) ys = elim ys [
    | nil ↦ false
    | cons y ys' ↦ equal x y && equal_items xs ys'
  ]

  equal_members : Members → Members → Bool
  equal_members end ns = true
  equal_members (member k v ms) ns =
      elim (find k ns) [ none ↦ false | some w ↦ equal v w ] && equal_members ms ns
