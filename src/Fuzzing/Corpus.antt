-- ===== src/Fuzzing/Corpus.antt =====
-- `CorpusController`. The file system is the environment: the entries of a directory with their
-- sizes, and the contents of a file that can be opened. It does not change during a run.
use ctap2_test_tool.Base.{
  Action, Bool, Bytes, List, Option, [], check_some, codes, done, false, get_elem?, gets,
  if◌then◌else◌, is_empty, length, ltb, map, none, pure, some, true, undefined, ℕ, ◌%◌, ◌&&◌, ◌++◌,
  ◌+◌, ◌==◌, ◌>>=◌, ◌||◌, ◌∷◌,
}
use ctap2_test_tool.Fuzzing.{InputType, input_type_to_directory_name}

pub record FileSystem : Type 0 where
  pub directory : Bytes → List (ℕ × Bytes)
  pub contents : Bytes → Option Bytes

pub record FileMetadata : Type 0 where
  pub file_size : ℕ
  pub file_name : Bytes

-- `std::string::operator<`, on the bytes as unsigned numbers.
unfoldable pub bytes_less : Bytes → Bytes → Bool
bytes_less xs [] = false
bytes_less [] (y ∷ ys) = true
bytes_less (x ∷ xs) (y ∷ ys) = ltb x y || ((x == y) && bytes_less xs ys)

-- `FileMetadata::operator<`.
unfoldable pub metadata_less : FileMetadata → FileMetadata → Bool
unfolding bytes_less
metadata_less a b =
    ltb a.file_size b.file_size
    || ((a.file_size == b.file_size) && bytes_less a.file_name b.file_name)

-- `std::sort` with this order, as insertion. Entries that neither precede nor follow one another
-- are equal, so every sorting gives the same result.
unfoldable pub insert_sorted : FileMetadata → List FileMetadata → List FileMetadata
unfolding metadata_less
insert_sorted a [] = a ∷ []
insert_sorted a (b ∷ l) =
    let rest = insert_sorted a l in if metadata_less b a then b ∷ rest else a ∷ b ∷ l

unfoldable pub sort_metadata : List FileMetadata → List FileMetadata
unfolding insert_sorted
sort_metadata [] = []
sort_metadata (a ∷ l) = insert_sorted a (sort_metadata l)

pub record CorpusController : Type 0 where
  pub corpus_path : Bytes
  pub corpus_metadata : List FileMetadata
  pub current_input_index : ℕ

abbrev pub metadata_of : ℕ × Bytes → FileMetadata
metadata_of (size, name) = record { file_size = size; file_name = name }

abbrev ends_with_slash : Bytes → Bool
ends_with_slash [] = false
ends_with_slash (c ∷ []) = c == 47
ends_with_slash (c ∷ d ∷ cs) = ends_with_slash (d ∷ cs)

-- `std::filesystem::path::operator/` of a path and a name that does not begin with a slash.
abbrev pub join_path : Bytes → Bytes → Bytes
join_path path name =
    if is_empty path || ends_with_slash path then path ++ name else path ++ codes "/" ++ name

unfoldable pub new_corpus_controller : FileSystem → InputType → Bytes → CorpusController
unfolding sort_metadata input_type_to_directory_name
new_corpus_controller files input_type base_corpus_path =
    let path = join_path base_corpus_path (input_type_to_directory_name input_type) in
    record {
      corpus_path = path;
      corpus_metadata = sort_metadata (map metadata_of (files.directory path));
      current_input_index = 0;
    }

unfoldable pub has_next_input : CorpusController → Bool
has_next_input c = ltb c.current_input_index (length c.corpus_metadata)

-- The message of the failed check is kept up to the path.
unfoldable pub get_file_data : {S : Type 0} → FileSystem → CorpusController → Bytes → Action S Bytes
get_file_data files c name =
    check_some (files.contents (join_path c.corpus_path name)) (codes "Unable to open file: ")

-- The name at the index, which advances. Without a next input the source reads past the end.
unfoldable pub take_input : Action CorpusController Bytes
take_input c = elim (get_elem? c.corpus_metadata c.current_input_index) [
  | none ↦ (undefined, c)
  | some entry ↦
      (done entry.file_name, record c { current_input_index = c.current_input_index + 1 })
]

unfoldable pub get_next_input : FileSystem → Action CorpusController (Bytes × Bytes)
unfolding take_input get_file_data
get_next_input files = do
  input_name ← take_input
  c ← gets (λ (c : CorpusController). c)
  bytes ← get_file_data files c input_name
  pure (bytes, input_name)

-- With the number that `std::rand` returns. The remainder by zero, for an empty corpus, has no
-- meaning.
unfoldable pub get_random_input : FileSystem → ℕ → Action CorpusController (Bytes × Bytes)
unfolding get_file_data
get_random_input files random c =
    elim (get_elem? c.corpus_metadata (random % length c.corpus_metadata)) [
      | none ↦ (undefined, c)
      | some entry ↦
          (get_file_data files c entry.file_name >>= λ bytes. pure (bytes, entry.file_name)) c
    ]
