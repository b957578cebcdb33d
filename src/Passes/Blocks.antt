-- ===== src/Passes/Blocks.antt =====
-- Where the passes of src/instrumentation for basic blocks (AMDGCNSubmitBBStart.cpp and
-- AMDGCNSubmitBBInterval.cpp) put their calls, and which numbers these have.
use omniprobe.Prelude.{
  ℕ, suc, ◌+◌, ◌%◌, ◌^◌, ◌<◌, ◌≡◌, refl, sym, ap, ◌∙◌, Bool, true, false, not, List, [], ◌∷◌, ◌++◌,
  map, Option, none, some, Bytes, codes, all, any, All, length, arith, Bool-cases, Option-cases,
  inl, inr,
}
use omniprobe.Passes.{
  Location, Instruction, Opcode, phi, terminator, Item, kept, inserted_call, inserted_alloca,
  inserted_store, buffer_argument, clock_result, time_interval, int32, int64, pointer_cast, element,
  get_full_path,
}
use omniprobe.Passes.BlockStarts.{is_phi, submit_wave_header, mark_block, mark_blocks}
use omniprobe.Passes.Intervals.{
  is_terminator, starting, constants_of, ending, before_terminator, time_block, time_blocks,
}

-- A property of each block with its number and its items.
abbrev pub Numbered :
    (ℕ → List Instruction → List Item → Type 0)
    → ℕ
    → List (List Instruction)
    → List (List Item)
    → Type 0
Numbered P i [] [] = Unit
Numbered P i (block ∷ blocks) (items ∷ rest) = P i block items × Numbered P (suc i) blocks rest
Numbered P i [] (items ∷ rest) = ⊥
Numbered P i (block ∷ blocks) [] = ⊥

abbrev pub has_blocks : List (List Instruction) → Bool
has_blocks [] = false
has_blocks (block ∷ rest) = true

abbrev pub is_code : Instruction → Bool
is_code inst = not (is_phi inst.opcode)

abbrev pub are_phis : List Instruction → Bool
are_phis = all (λ inst. is_phi inst.opcode)

-- The text of the path of a location: the directory, a slash and the name, or what there is of them.
abbrev pub path_text : Option (Bytes × Bytes) → Bytes
path_text none = []
path_text (some ([], name)) = name
path_text (some (c ∷ directory, name)) = (c ∷ directory) ++ (b'/' ∷ name)

get_full_path-path_text : (loc : Location) → get_full_path loc ≡ path_text loc.file
unfolding get_full_path
get_full_path-path_text loc = elim (Option-cases loc.file) [
  | inl e ↦ rw (get_full_path, e) refl
  | inr (([], name), e) ↦ rw (get_full_path, e) refl
  | inr ((c ∷ directory, name), e) ↦ rw (get_full_path, e) refl
]

-- The call for the start of the block of a number, with the message type of block starts, 2.
abbrev pub start_call : (Bytes → ℕ) → Option Location → ℕ → Item
start_call hash none number = inserted_call (codes "s_submit_wave_header") (
    buffer_argument
    ∷ int64 (hash (codes "<unknown source file>") % 2 ^ 64)
    ∷ int32 0
    ∷ int32 0
    ∷ int32 2
    ∷ int32 number
    ∷ [])
start_call hash (some loc) number = inserted_call (codes "s_submit_wave_header") (
    buffer_argument
    ∷ int64 (hash (path_text loc.file) % 2 ^ 64)
    ∷ int32 (loc.line % 2 ^ 32)
    ∷ int32 (loc.column % 2 ^ 32)
    ∷ int32 2
    ∷ int32 number
    ∷ [])

submit_wave_header-start_call :
    (hash : Bytes → ℕ) (loc : Option Location) (number : ℕ)
    → submit_wave_header hash loc number ≡ start_call hash loc number
unfolding submit_wave_header
submit_wave_header-start_call hash none number = refl
submit_wave_header-start_call hash (some loc) number = rw (get_full_path-path_text loc) refl

-- The block is kept, and the call with its number stands behind its phis.
abbrev pub IsMarked : (Bytes → ℕ) → ℕ → List Instruction → List Item → Type 0
IsMarked hash i block items =
    (phis : List Instruction) × (inst : Instruction) × (rest : List Instruction) × (block
      ≡ phis ++ inst ∷ rest)
    × (are_phis phis ≡ true)
    × (is_phi inst.opcode ≡ false)
    × (items ≡ map kept phis ++ start_call hash inst.debug_loc i ∷ (kept inst ∷ map kept rest))

mark_block-IsMarked :
    (hash : Bytes → ℕ) (i : ℕ) (block : List Instruction)
    → any is_code block ≡ true
    → IsMarked hash i block (mark_block hash i block).0 × ((mark_block hash i block).1 ≡ true)
unfolding mark_block
mark_block-IsMarked hash i [] h = cc
mark_block-IsMarked hash i (inst ∷ rest) h = elim (Bool-cases (is_phi inst.opcode)) [
  | inr code ↦ rw code (
    (
      [],
      inst,
      rest,
      refl,
      refl,
      code,
      ap (λ call. call ∷ (kept inst ∷ map kept rest))
          (submit_wave_header-start_call hash inst.debug_loc i),
    ),
    refl,
  )
  | inl leading ↦
      let ((phis, first, behind, split, are, is, found), marked) =
        mark_block-IsMarked hash i rest (ground (arith, leading, h)) in
      rw leading (
        (
          inst ∷ phis,
          first,
          behind,
          ap (◌∷◌ inst) split,
          ground (arith, leading, are),
          is,
          ap (◌∷◌ (kept inst)) found,
        ),
        marked,
      )
]

fits_later : (i n : ℕ) → i + suc n < 2 ^ 32 → suc i + n < 2 ^ 32
fits_later i n fits = omega arith

next_number : (i n : ℕ) → i + suc n < 2 ^ 32 → (i + 1) % 2 ^ 32 ≡ suc i
next_number i n fits = omega arith

-- For blocks that each have an instruction besides phis, and fewer than 2 ^ 32 of them: each block is kept,
-- with one call of s_submit_wave_header behind its phis, whose last argument is the number of the block
-- and which carries the message type 2 and the hashed path, the line and the column of the
-- instruction behind it, or the defaults if it has no location; and the pass says that it has changed the clone exactly if it has a block.
pub mark_blocks-IsMarked :
    (hash : Bytes → ℕ) (i : ℕ) (blocks : List (List Instruction))
    → All (λ block. any is_code block ≡ true) blocks
    → i + length blocks < 2 ^ 32
    → Numbered (IsMarked hash) i blocks (mark_blocks hash i blocks).0
      × ((mark_blocks hash i blocks).1 ≡ has_blocks blocks)
unfolding mark_blocks
mark_blocks-IsMarked hash i [] code fits = (tt, refl)
mark_blocks-IsMarked hash i (block ∷ rest) code fits =
    let (marked, inserted) = mark_block-IsMarked hash i block code.0 in
    let next = next_number i (length rest) fits in
    let (later, modified) =
      mark_blocks-IsMarked hash (suc i) rest code.1 (fits_later i (length rest) fits) in
    rw (inserted, next) ((marked, later), refl)

abbrev pub ends_in_terminator : List Instruction → Bool
ends_in_terminator [] = false
ends_in_terminator (inst ∷ []) = is_terminator inst.opcode
ends_in_terminator (inst ∷ next ∷ rest) = ends_in_terminator (next ∷ rest)

-- The first instruction of a body with its terminator.
abbrev pub first_of : List Instruction → Instruction → Instruction
first_of [] term = term
first_of (inst ∷ rest) term = inst

-- The clock is read into the first and the second half of the interval.
abbrev pub clock_started : List Item
clock_started =
    inserted_call (codes "s_clock64") []
    ∷ inserted_alloca 2
    ∷ inserted_store clock_result (element time_interval 0)
    ∷ []

abbrev pub interval_call : ℕ → ℕ → ℕ → ℕ → Item
interval_call path line column number = inserted_call (codes "s_submit_time_interval") (
    buffer_argument
    ∷ pointer_cast time_interval
    ∷ int64 path
    ∷ int32 line
    ∷ int32 column
    ∷ int32 number
    ∷ [])

-- The last item sends the interval with the number of the block.
abbrev pub clock_sent : (Bytes → ℕ) → Option Location → ℕ → List Item
clock_sent hash none number =
    inserted_call (codes "s_clock64") []
    ∷ inserted_store clock_result (element time_interval 1)
    ∷ interval_call 0 0xffffff 0xffffff number
    ∷ []
clock_sent hash (some loc) number =
    inserted_call (codes "s_clock64") []
    ∷ inserted_store clock_result (element time_interval 1)
    ∷ interval_call (hash (path_text loc.file) % 2 ^ 64) (loc.line % 2 ^ 32) (loc.column % 2 ^ 32)
        number
    ∷ []

starting-clock_started : starting ≡ clock_started
unfolding starting
starting-clock_started = refl

ending-clock_sent :
    (hash : Bytes → ℕ) (loc : Option Location) (number : ℕ)
    → ending hash loc number ≡ clock_sent hash loc number
unfolding ending constants_of
ending-clock_sent hash none number = refl
ending-clock_sent hash (some loc) number = rw (get_full_path-path_text loc) refl

-- The block is kept; the clock is read behind the phis and in front of the terminator, and then the
-- interval is sent with the number of the block and the location of its first instruction.
abbrev pub IsTimed : (Bytes → ℕ) → ℕ → List Instruction → List Item → Type 0
IsTimed hash i block items =
    (phis : List Instruction) × (body : List Instruction) × (term : Instruction) × (block
      ≡ phis ++ (body ++ term ∷ []))
    × (are_phis phis ≡ true)
    × (is_phi (first_of body term).opcode ≡ false)
    × (is_terminator term.opcode ≡ true)
    × (items
        ≡ map kept phis
          ++ (clock_started
              ++ (map kept body
                  ++ (clock_sent hash (first_of body term).debug_loc i ++ kept term ∷ []))))

before_terminator_lem :
    (items : List Item) (inst : Instruction) (rest : List Instruction)
    → ends_in_terminator (inst ∷ rest) ≡ true
    → (body : List Instruction) × (term : Instruction) × (inst ∷ rest ≡ body ++ term ∷ [])
      × (first_of body term ≡ inst)
      × (is_terminator term.opcode ≡ true)
      × (before_terminator items (inst ∷ rest) ≡ some (map kept body ++ (items ++ kept term ∷ [])))
unfolding before_terminator
before_terminator_lem items inst [] h = ([], inst, refl, refl, h, rw h refl)
before_terminator_lem items inst (next ∷ rest) h =
    let (body, term, split, head, ends, found) = before_terminator_lem items next rest h in
    (inst ∷ body, term, ap (◌∷◌ inst) split, refl, ends, rw found refl)

phi-terminator : (o : Opcode) → is_phi o ≡ true → is_terminator o ≡ false
phi-terminator phi h = refl
phi-terminator terminator h = cc
phi-terminator _ h = cc

ends_later :
    (inst : Instruction) (rest : List Instruction)
    → is_phi inst.opcode ≡ true
    → ends_in_terminator (inst ∷ rest) ≡ true
    → ends_in_terminator rest ≡ true
ends_later inst [] leading h = cc (phi-terminator inst.opcode leading)
ends_later inst (next ∷ rest) leading h = h

time_block-IsTimed :
    (hash : Bytes → ℕ) (i : ℕ) (block : List Instruction)
    → ends_in_terminator block ≡ true
    → (items : List Item) × (time_block hash i block ≡ some items) × IsTimed hash i block items
unfolding time_block
time_block-IsTimed hash i [] h = cc
time_block-IsTimed hash i (inst ∷ rest) h = elim (Bool-cases (is_phi inst.opcode)) [
  | inr code ↦
      let (body, term, split, head, ends, found) =
        before_terminator_lem (ending hash inst.debug_loc i) inst rest h in
      let placed = λ (f : Instruction).
        clock_started ++ (map kept body ++ (clock_sent hash f.debug_loc i ++ kept term ∷ [])) in
      let written =
        λ (first last : List Item). first ++ (map kept body ++ (last ++ kept term ∷ [])) in
      (
        placed inst,
        rw (code, found)
            (ap some (
              ap (λ first. written first (ending hash inst.debug_loc i)) starting-clock_started
              ∙ ap (written clock_started) (ending-clock_sent hash inst.debug_loc i))),
        (
          [],
          body,
          term,
          split,
          refl,
          ap (λ (f : Instruction). is_phi f.opcode) head ∙ code,
          ends,
          ap placed (sym head),
        ),
      )
  | inl leading ↦
      let (items, found, (phis, body, term, split, are, is, ends, placed)) =
        time_block-IsTimed hash i rest (ends_later inst rest leading h) in
      (
        kept inst ∷ items,
        rw (leading, found) refl,
        (
          inst ∷ phis,
          body,
          term,
          ap (◌∷◌ inst) split,
          ground (arith, leading, are),
          is,
          ends,
          ap (◌∷◌ (kept inst)) placed,
        ),
      )
]

-- For blocks that each end in a terminator, and fewer than 2 ^ 32 of them: the pass does not read through
-- a null pointer; each block is kept, with the clock read behind its phis, the clock read again in front of
-- its terminator, and behind that a call that sends the interval with the number of the block and the
-- location of its first instruction; and the pass says that it has changed the clone exactly if it has
-- a block.
pub time_blocks-IsTimed :
    (hash : Bytes → ℕ) (i : ℕ) (blocks : List (List Instruction))
    → All (λ block. ends_in_terminator block ≡ true) blocks
    → i + length blocks < 2 ^ 32
    → (instrumented : List (List Item)) × (time_blocks hash i blocks
        ≡ some (instrumented, has_blocks blocks))
      × Numbered (IsTimed hash) i blocks instrumented
unfolding time_blocks
time_blocks-IsTimed hash i [] ends fits = ([], refl, tt)
time_blocks-IsTimed hash i (block ∷ rest) ends fits =
    let (items, found, timed) = time_block-IsTimed hash i block ends.0 in
    let next = next_number i (length rest) fits in
    let (later, done, numbered) =
      time_blocks-IsTimed hash (suc i) rest ends.1 (fits_later i (length rest) fits) in
    (items ∷ later, rw (time_blocks, found, next, done) refl, (timed, numbered))
