-- ===== src/LibraryFilter/Dependencies.antt =====
-- getElfDependencies and getIncludedFilesWithDeps of src/library_filter.cc: the files of the patterns
-- that ask for dependencies, with the libraries that each of them needs. What libelf reads of a file is
-- a parameter.
use omniprobe.Prelude.{
  ◌≡◌, refl, Bool, ◌&&◌, ◌||◌, List, [], ◌∷◌, Option, none, some, Bytes, text_eq, if◌then◌else◌,
  Bool-cases, inl, inr, arith, contains,
}
use omniprobe.Prelude.TextSets.{
  insert_text, insert_texts, has_text, any_text, IsSorted, has_text-insert_text,
  has_text-insert_texts, insert_text-IsSorted, insert_texts-IsSorted,
}
use omniprobe.LibraryFilter.{Outside, Filter, is_valid_elf, dependencies}

-- An entry of the dynamic section: a needed library, the end mark DT_NULL, or another one.
pub data Entry : Type 0 where
  needed : Bytes → Entry
  end_mark other_entry : Entry

-- A section; the entries are there if its data and its string table are. An entry can fail to be read.
pub record Section : Type 0 where
  pub dynamic : Bool
  pub entries : Option (List (Option Entry))

-- The sections of a file, if it can be opened and read as an ELF file.
abbrev pub ElfReader : Type 0
ElfReader = Bytes → Option (List Section)

-- The text in front of the last slash, or nothing.
unfoldable pub parent_dir : Bytes → Bytes
parent_dir [] = []
parent_dir (c ∷ s) = let rest = parent_dir s in if contains s b'/' then c ∷ rest else []

-- The names of the needed libraries, up to the end mark.
unfoldable pub needed_names : List (Option Entry) → List Bytes
needed_names [] = []
needed_names (none ∷ entries) = needed_names entries
needed_names (some (needed name) ∷ entries) = name ∷ needed_names entries
needed_names (some end_mark ∷ entries) = []
needed_names (some other_entry ∷ entries) = needed_names entries

-- The first dynamic section that has its data.
unfoldable pub dynamic_entries : List Section → List (Option Entry)
dynamic_entries [] = []
dynamic_entries (section ∷ sections) =
    let later = dynamic_entries sections in
    if section.dynamic
    then elim (section.entries) [ none ↦ later | some entries ↦ entries ]
    else later

module _ {R : Type 0} (env : Outside R) (read_elf : ElfReader) where
  unfoldable pub get_elf_dependencies : Bytes → List Bytes
  unfolding parent_dir needed_names dynamic_entries
  get_elf_dependencies path = elim (read_elf path) [
    | none ↦ []
    | some sections ↦ dependencies env (parent_dir path) (needed_names (dynamic_entries sections))
  ]

  -- The loop over the files that a pattern stands for.
  unfoldable pub add_expanded : List Bytes → List Bytes → List Bytes
  add_expanded [] result = result
  add_expanded (path ∷ paths) result = add_expanded paths (
      if is_valid_elf env path
      then insert_texts (get_elf_dependencies path) (insert_text path result)
      else result)

  unfoldable pub add_patterns : List Bytes → List Bytes → List Bytes
  unfolding add_expanded
  add_patterns [] result = result
  add_patterns (pattern_ ∷ patterns) result =
      add_patterns patterns (add_expanded (env.expand_glob pattern_) result)

  unfoldable pub get_included_files_with_deps : Filter R → List Bytes
  unfolding add_patterns
  get_included_files_with_deps filter = add_patterns filter.include_with_deps_patterns []

  -- A file that a pattern stands for brings a path in: it is an ELF file, and it is the path or needs it.
  abbrev pub brings : Bytes → Bytes → Bool
  brings t path =
      is_valid_elf env path && (text_eq t path || has_text t (get_elf_dependencies path))

module _ {R : Type 0} (env : Outside R) (read_elf : ElfReader) where
  has_text-add_expanded :
      (t : Bytes) (paths result : List Bytes)
      → has_text t (add_expanded env read_elf paths result)
        ≡ (any_text (brings env read_elf t) paths || has_text t result)
  unfolding add_expanded
  has_text-add_expanded t [] result = refl
  has_text-add_expanded t (path ∷ paths) result =
      let deps = get_elf_dependencies env read_elf path in
      let next =
        if is_valid_elf env path then insert_texts deps (insert_text path result) else result in
      ground (
        arith,
        has_text-add_expanded t paths next,
        has_text-insert_texts t deps (insert_text path result),
        has_text-insert_text t path result,
      )

  has_text-add_patterns :
      (t : Bytes) (patterns result : List Bytes)
      → has_text t (add_patterns env read_elf patterns result) ≡ (
          any_text (λ p. any_text (brings env read_elf t) (env.expand_glob p)) patterns
          || has_text t result)
  unfolding add_patterns
  has_text-add_patterns t [] result = refl
  has_text-add_patterns t (p ∷ ps) result =
      let next = add_expanded env read_elf (env.expand_glob p) result in
      ground
        (arith, has_text-add_patterns t ps next, has_text-add_expanded t (env.expand_glob p) result)

  add_expanded-IsSorted :
      (paths result : List Bytes)
      → IsSorted result
      → IsSorted (add_expanded env read_elf paths result)
  unfolding add_expanded
  add_expanded-IsSorted [] result i = i
  add_expanded-IsSorted (path ∷ paths) result i = elim (Bool-cases (is_valid_elf env path)) [
    | inl e ↦
        let added = insert_text-IsSorted path result i in
        let deps = get_elf_dependencies env read_elf path in
        rw (add_expanded, e)
          (add_expanded-IsSorted paths (insert_texts deps (insert_text path result))
            (insert_texts-IsSorted deps (insert_text path result) added))
    | inr e ↦ rw (add_expanded, e) (add_expanded-IsSorted paths result i)
  ]

  add_patterns-IsSorted :
      (patterns result : List Bytes)
      → IsSorted result
      → IsSorted (add_patterns env read_elf patterns result)
  unfolding add_patterns
  add_patterns-IsSorted [] result i = i
  add_patterns-IsSorted (p ∷ ps) result i =
      add_patterns-IsSorted ps (add_expanded env read_elf (env.expand_glob p) result)
        (add_expanded-IsSorted (env.expand_glob p) result i)

  -- A path is in the result exactly if, for some pattern and some ELF file that the pattern stands
  -- for, it is that file or one of its dependencies; and the result is in increasing order, so no path
  -- is in it twice.
  get_included_files_with_deps-IsSorted :
      (filter : Filter R)
      → ((t : Bytes)
          → has_text t (get_included_files_with_deps env read_elf filter)
            ≡ any_text
                (λ p. any_text (brings env read_elf t) (env.expand_glob p))
                filter.include_with_deps_patterns)
        × IsSorted (get_included_files_with_deps env read_elf filter)
  unfolding get_included_files_with_deps
  get_included_files_with_deps-IsSorted filter = (
    λ t. ground (arith, has_text-add_patterns t filter.include_with_deps_patterns []),
    add_patterns-IsSorted filter.include_with_deps_patterns [] tt,
  )
