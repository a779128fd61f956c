-- ===== src/Tests/Refinement.antt =====
-- The corpus loop against the list of its files.
use ctap2_test_tool.Base.{
  Action, Bool, Bytes, List, Option, Outcome, Perm, [], ap, arith, bind_cong, check_failed,
  check_some, codes, done, drop, drop_cons, drop_nil, false, length, map, none, pure, refl, some,
  suc, true, zero, ℕ, ◌+◌, ◌<◌, ◌>>=◌, ◌∙◌, ◌∷◌, ◌≡◌, ◌≤◌,
}
use ctap2_test_tool.Cbor.{Cbor}
use ctap2_test_tool.Crypto.{Library}
use ctap2_test_tool.Fuzzing.{InputType, input_type_to_directory_name}
use ctap2_test_tool.Fuzzing.Corpus.{
  CorpusController, FileMetadata, FileSystem, get_file_data, get_next_input, has_next_input,
  join_path, metadata_of, new_corpus_controller, sort_metadata, take_input,
}
use ctap2_test_tool.Fuzzing.Order.{IsOrdered, sort_metadata-IsOrdered, sort_metadata-Perm}
use ctap2_test_tool.Monitors.{Session}
use ctap2_test_tool.Tests.Corpus.{
  Surroundings, corpus_loop, execute_corpus, from_outcome, run_input,
}

abbrev input_of : Option Bytes → Bytes → Outcome (Bytes × Bytes)
input_of none name = check_failed (codes "Unable to open file: ")
input_of (some input) name = done (input, name)

next_input :
    (files : FileSystem) (c : CorpusController) (entry : FileMetadata) (entries : List FileMetadata)
    → drop c.current_input_index c.corpus_metadata ≡ entry ∷ entries
    → get_next_input files c ≡ (
      input_of (files.contents (join_path c.corpus_path entry.file_name)) entry.file_name,
      record c { current_input_index = c.current_input_index + 1 },
    )
unfolding get_next_input take_input get_file_data
next_input files c entry entries e =
    ground (arith, drop_cons c.current_input_index c.corpus_metadata entry entries e)

one_more : (n : ℕ) → n + 1 ≡ suc n
one_more n = omega arith

drop_later : {A : Type 0} (n : ℕ) (xs : List A) → drop (n + 1) xs ≡ drop (suc n) xs
drop_later n xs = ap (λ i. drop i xs) (one_more n)

module _ (cbor : Cbor) (library : Library) where
  -- The files in order, each sent once, until one makes the device crash.
  unfoldable pub run_entries :
      Surroundings
      → InputType
      → Bytes
      → List FileMetadata
      → ℕ
      → Action (Session cbor) (Option Bytes)
  run_entries around input_type path [] passed_files = pure none
  run_entries around input_type path (entry ∷ entries) passed_files =
      check_some (around.files.contents (join_path path entry.file_name))
        (codes "Unable to open file: ")
      >>= λ input_data.
          run_input cbor library around input_type input_data entry.file_name passed_files
          >>= λ stop. elim stop [
            | some message ↦ pure (some message)
            | none ↦ run_entries around input_type path entries (passed_files + 1)
          ]

  -- One round of the loop, given its test and the next input.
  abbrev loop_round :
      Surroundings
      → InputType
      → ℕ
      → ℕ
      → Bool
      → Outcome (Bytes × Bytes) × CorpusController
      → Action (Session cbor) (Option Bytes)
  loop_round around input_type n passed_files has (input, c') = elim has [
    | false ↦ pure none
    | true ↦ from_outcome input >>= λ (input_data, input_name).
        run_input cbor library around input_type input_data input_name passed_files >>= λ stop.
        elim stop [
          | some message ↦ pure (some message)
          | none ↦ corpus_loop cbor library around input_type n c' (passed_files + 1)
        ]
  ]

  has_next :
      (c : CorpusController)
      → c.current_input_index < length c.corpus_metadata
      → has_next_input c ≡ true
  unfolding has_next_input
  has_next c l = ground (arith, l)

  has_none :
      (c : CorpusController)
      → length c.corpus_metadata ≤ c.current_input_index
      → has_next_input c ≡ false
  unfolding has_next_input
  has_none c l = ground (arith, l)

  abbrev unless_stopped :
      Action (Session cbor) (Option Bytes) → Option Bytes → Action (Session cbor) (Option Bytes)
  unless_stopped k stop = elim stop [ some message ↦ pure (some message) | none ↦ k ]

  stopped_cong :
      (stop : Option Bytes) (k k' : Action (Session cbor) (Option Bytes)) (s : Session cbor)
      → k s ≡ k' s
      → unless_stopped k stop s ≡ unless_stopped k' stop s
  stopped_cong none k k' s e = e
  stopped_cong (some message) k k' s e = refl

  run_file :
      (around : Surroundings) (input_type : InputType) (n : ℕ) (c : CorpusController)
      (entries : List FileMetadata) (x : FileMetadata) (passed_files : ℕ) (file : Option Bytes)
      (s : Session cbor)
      → ((passed_files' : ℕ) (s' : Session cbor)
          → corpus_loop cbor library around input_type n c passed_files' s'
            ≡ run_entries around input_type c.corpus_path entries passed_files' s')
      → loop_round around input_type n passed_files true (input_of file x.file_name, c) s
        ≡ (check_some file (codes "Unable to open file: ") >>= λ input_data.
              run_input cbor library around input_type input_data x.file_name passed_files
              >>= λ stop. elim stop [
                | some message ↦ pure (some message)
                | none ↦ run_entries around input_type c.corpus_path entries (passed_files + 1)
              ])
            s
  run_file around input_type n c entries x passed_files none s h = refl
  run_file around input_type n c entries x passed_files (some file) s h =
      bind_cong (run_input cbor library around input_type file x.file_name passed_files) _ _ s
        (λ stop s'.
          stopped_cong stop (corpus_loop cbor library around input_type n c (passed_files + 1))
            (run_entries around input_type c.corpus_path entries (passed_files + 1)) s'
            (h (passed_files + 1) s'))

  corpus_loop-entries :
      (around : Surroundings) (input_type : InputType) (n : ℕ) (c : CorpusController)
      (entries : List FileMetadata) (passed_files : ℕ) (s : Session cbor)
      → drop c.current_input_index c.corpus_metadata ≡ entries
      → length entries ≤ n
      → corpus_loop cbor library around input_type n c passed_files s
        ≡ run_entries around input_type c.corpus_path entries passed_files s
  unfolding corpus_loop run_entries
  corpus_loop-entries around input_type zero c [] passed_files s e l = refl
  corpus_loop-entries around input_type zero c (x ∷ entries) passed_files s e l =
      absurd (omega arith)
  corpus_loop-entries around input_type (suc n) c [] passed_files s e l =
      ap
        (λ (b : Bool).
          loop_round around input_type n passed_files b (get_next_input around.files c) s)
        (has_none c (drop_nil c.current_input_index c.corpus_metadata e))
  corpus_loop-entries around input_type (suc n) c (x ∷ entries) passed_files s e l =
      let (inside, _, later) = drop_cons c.current_input_index c.corpus_metadata x entries e in
      let file = around.files.contents (join_path c.corpus_path x.file_name) in
      let c' : CorpusController = record c { current_input_index = c.current_input_index + 1 } in
      ap
        (λ (b : Bool).
          loop_round around input_type n passed_files b (get_next_input around.files c) s)
        (has_next c inside)
      ∙ ap
          (λ (p : Outcome (Bytes × Bytes) × CorpusController).
            loop_round around input_type n passed_files true p s)
          (next_input around.files c x entries e)
      ∙ run_file around input_type n c' entries x passed_files file s (λ passed_files' s'.
        corpus_loop-entries around input_type n c' entries passed_files' s'
          (drop_later c.current_input_index c.corpus_metadata ∙ later) (omega (arith, l)))

  -- Running a corpus is the same as going through the files of its directory, smallest first and
  -- by name among files of one size, each sent once, until one makes the device crash.
  pub execute_corpus_refines :
      (around : Surroundings) (input_type : InputType) (base_corpus_path : Bytes) (s : Session cbor)
      → let path = join_path base_corpus_path (input_type_to_directory_name input_type) in
        let order = sort_metadata (map metadata_of (around.files.directory path)) in
        (execute_corpus cbor library around input_type base_corpus_path s
          ≡ run_entries around input_type path order 0 s)
        × IsOrdered order
        × Perm order (map metadata_of (around.files.directory path))
  unfolding execute_corpus new_corpus_controller
  execute_corpus_refines around input_type base_corpus_path s =
      let path = join_path base_corpus_path (input_type_to_directory_name input_type) in
      let entries = map metadata_of (around.files.directory path) in
      let c = new_corpus_controller around.files input_type base_corpus_path in
      (
        corpus_loop-entries around input_type (length c.corpus_metadata) c c.corpus_metadata 0 s
            refl (omega arith),
        sort_metadata-IsOrdered entries,
        sort_metadata-Perm entries,
      )
