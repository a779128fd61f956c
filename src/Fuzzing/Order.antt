-- ===== src/Fuzzing/Order.antt =====
-- The order of the corpus.
use mathlib.Core.List.Perm
use ctap2_test_tool.Base.{Bool, Bytes, List, Perm, [], arith, false, if◌then◌else◌, true, ◌∷◌, ◌≡◌}
use ctap2_test_tool.Fuzzing.Corpus.{
  FileMetadata, bytes_less, insert_sorted, metadata_less, sort_metadata,
}

abbrev pub Leq : FileMetadata → FileMetadata → Type 0
Leq a b = metadata_less b a ≡ false

-- Every entry is followed only by entries that do not precede it.
abbrev pub IsOrdered : List FileMetadata → Type 0
IsOrdered [] = Unit {0}
IsOrdered (a ∷ []) = Unit {0}
IsOrdered (a ∷ b ∷ l) = Leq a b × IsOrdered (b ∷ l)

bytes_less_asym : (xs ys : Bytes) → bytes_less xs ys ≡ true → bytes_less ys xs ≡ false
unfolding bytes_less
bytes_less_asym [] [] e = ground arith
bytes_less_asym [] (y ∷ ys) e = ground arith
bytes_less_asym (x ∷ xs) [] e = ground arith
bytes_less_asym (x ∷ xs) (y ∷ ys) e = ground (arith, bytes_less_asym xs ys)

metadata_less_asym : (a b : FileMetadata) → metadata_less a b ≡ true → Leq a b
unfolding metadata_less
metadata_less_asym a b e = ground (arith, bytes_less_asym a.file_name b.file_name)

insert_sorted-IsOrdered :
    (a : FileMetadata) (l : List FileMetadata) → IsOrdered l → IsOrdered (insert_sorted a l)
unfolding insert_sorted
insert_sorted-IsOrdered a [] h = tt
insert_sorted-IsOrdered a (b ∷ []) h = ground (arith, metadata_less_asym b a)
insert_sorted-IsOrdered a (b ∷ c ∷ l) h =
    ground
      (arith, metadata_less_asym b a, metadata_less_asym c a, insert_sorted-IsOrdered a (c ∷ l))

pub sort_metadata-IsOrdered : (l : List FileMetadata) → IsOrdered (sort_metadata l)
unfolding sort_metadata
sort_metadata-IsOrdered [] = tt
sort_metadata-IsOrdered (a ∷ l) =
    insert_sorted-IsOrdered a (sort_metadata l) (sort_metadata-IsOrdered l)

insert_step-Perm :
    (less : Bool) (a b : FileMetadata) (l rest : List FileMetadata)
    → Perm rest (a ∷ l)
    → Perm (if less then b ∷ rest else a ∷ b ∷ l) (a ∷ b ∷ l)
insert_step-Perm true a b l rest p = Perm.trans (Perm.cons b p) (Perm.swap a b l)
insert_step-Perm false a b l rest p = Perm.refl (a ∷ b ∷ l)

insert_sorted-Perm : (a : FileMetadata) (l : List FileMetadata) → Perm (insert_sorted a l) (a ∷ l)
unfolding insert_sorted
insert_sorted-Perm a [] = Perm.refl (a ∷ [])
insert_sorted-Perm a (b ∷ l) =
    insert_step-Perm (metadata_less b a) a b l (insert_sorted a l) (insert_sorted-Perm a l)

pub sort_metadata-Perm : (l : List FileMetadata) → Perm (sort_metadata l) l
unfolding sort_metadata
sort_metadata-Perm [] = Perm.refl []
sort_metadata-Perm (a ∷ l) =
    Perm.trans (insert_sorted-Perm a (sort_metadata l)) (Perm.cons a (sort_metadata-Perm l))
