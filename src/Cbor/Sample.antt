-- ===== src/Cbor/Sample.antt =====
-- A small implementation of the interface, on which the theorems are tried out. It reads every
-- byte string as one given value.
use ctap2_test_tool.Base.{
  ==_iff, Bool, Bytes, List, Option, [], arith, bytes_eq, false, if◌then◌else◌, int_eq, length,
  negsuc, none, pos, refl, some, true, ℕ, ℤ, ◌==◌, ◌↔◌, ◌∷◌, ◌≡◌, ◌≢◌,
}
use ctap2_test_tool.Cbor.{Cbor, CborLaws}

mutual
  pub data Item : Type 0 where
    nothing_item : Item
    integer_item : ℤ → Item
    text_item : Bytes → Item
    bytes_item : Bytes → Item
    flag_item : Bool → Item
    array_item : Items → Item
    table_item : Table → Item

  pub data Items : Type 0 where
    no_items : Items
    item_more : Item → Items → Items

  pub data Table : Type 0 where
    no_rows : Table
    row_more : Item → Item → Table → Table

abbrev items_of : List Item → Items
items_of [] = no_items
items_of (v ∷ vs) = item_more v (items_of vs)

abbrev list_of : Items → List Item
list_of no_items = []
list_of (item_more v vs) = v ∷ list_of vs

abbrev rows : Table → List (Item × Item)
rows no_rows = []
rows (row_more k v t) = (k, v) ∷ rows t

abbrev pub key_eq : Item → Item → Bool
key_eq (integer_item i) (integer_item j) = int_eq i j
key_eq (text_item i) (text_item j) = bytes_eq i j
key_eq _ _ = false

abbrev find_item : Table → Item → Option Item
find_item no_rows k = none
find_item (row_more j v t) k = if key_eq j k then some v else find_item t k

abbrev assign_item : Table → Item → Item → Table
assign_item no_rows k v = row_more k v no_rows
assign_item (row_more j w t) k v =
    let rest = assign_item t k v in if key_eq j k then row_more k v t else row_more j w rest

abbrev erase_item : Table → Item → Table
erase_item no_rows k = no_rows
erase_item (row_more j w t) k =
    let rest = erase_item t k in if key_eq j k then t else row_more j w rest

abbrev unsigned_of : Item → Option ℕ
unsigned_of (integer_item (pos n)) = some n
unsigned_of _ = none

abbrev integer_of : Item → Option ℤ
integer_of (integer_item i) = some i
integer_of _ = none

abbrev string_of : Item → Option Bytes
string_of (text_item s) = some s
string_of _ = none

abbrev bytes_of : Item → Option Bytes
bytes_of (bytes_item s) = some s
bytes_of _ = none

abbrev bool_of : Item → Option Bool
bool_of (flag_item b) = some b
bool_of _ = none

abbrev array_of : Item → Option (List Item)
array_of (array_item l) = some (list_of l)
array_of _ = none

abbrev table_of : Item → Option Table
table_of (table_item t) = some t
table_of _ = none

abbrev is_nothing : Item → Bool
is_nothing nothing_item = true
is_nothing _ = false

abbrev kind : Item → ℕ
kind nothing_item = 0
kind (integer_item i) = 1
kind (text_item i) = 2
kind (bytes_item i) = 3
kind (flag_item i) = 4
kind (array_item i) = 5
kind (table_item i) = 6

abbrev pub sample_cbor : Item → Cbor
sample_cbor value = record {
  Value = Item;
  MapValue = Table;
  none_value = nothing_item;
  of_int = integer_item;
  of_string = text_item;
  of_bytes = bytes_item;
  of_bool = flag_item;
  of_array = λ l. array_item (items_of l);
  of_map = table_item;
  is_none = is_nothing;
  as_unsigned = unsigned_of;
  as_integer = integer_of;
  as_string = string_of;
  as_bytestring = bytes_of;
  as_bool = bool_of;
  as_array = array_of;
  as_map = table_of;
  same_type = λ v w. kind v == kind w;
  empty_map = no_rows;
  find = find_item;
  assign = assign_item;
  erase = erase_item;
  entries = rows;
  read = λ b. some value;
  read_consumed = λ b. some (value, length b);
  write = λ v. some [];
}

int_eq_iff : (i j : ℤ) → (int_eq i j ≡ true) ↔ (i ≡ j)
int_eq_iff (pos a) (pos b) = ground (arith, ==_iff a b)
int_eq_iff (pos a) (negsuc b) = ground arith
int_eq_iff (negsuc a) (pos b) = ground arith
int_eq_iff (negsuc a) (negsuc b) = ground (arith, ==_iff a b)

key_eq_unique :
    (i : Item) (k j : ℤ)
    → k ≢ j
    → key_eq i (integer_item k) ≡ true
    → key_eq i (integer_item j) ≡ false
key_eq_unique (integer_item i) k j n e = ground (arith, int_eq_iff i k, int_eq_iff i j)
key_eq_unique nothing_item k j n e = refl
key_eq_unique (text_item i) k j n e = refl
key_eq_unique (bytes_item i) k j n e = refl
key_eq_unique (flag_item i) k j n e = refl
key_eq_unique (array_item i) k j n e = refl
key_eq_unique (table_item i) k j n e = refl

find_item-assign_self :
    (t : Table) (k : ℤ) (v : Item)
    → find_item (assign_item t (integer_item k) v) (integer_item k) ≡ some v
find_item-assign_self no_rows k v = ground (arith, int_eq_iff k k)
find_item-assign_self (row_more j w t) k v =
    ground (arith, int_eq_iff k k, find_item-assign_self t k v)

find_item-assign_ne :
    (t : Table) (k j : ℤ) (v : Item)
    → k ≢ j
    → find_item (assign_item t (integer_item k) v) (integer_item j) ≡ find_item t (integer_item j)
find_item-assign_ne no_rows k j v n = ground (arith, int_eq_iff k j)
find_item-assign_ne (row_more i w t) k j v n =
    ground (arith, int_eq_iff k j, key_eq_unique i k j n, find_item-assign_ne t k j v n)

pub sample_laws : (value : Item) → CborLaws (sample_cbor value)
sample_laws value = record {
  find-assign_self = find_item-assign_self;
  find-assign_ne = find_item-assign_ne;
}
