-- ===== src/BasicBlocks/Counts.antt =====
-- How often each instruction was executed, in the report of src/basic_block_analysis.cc. The counts are
-- kept from block to block: the object of a block has those of all blocks up to it.
use omniprobe.Prelude.{
  ℕ, ◌+◌, ◌*◌, ◌≡◌, refl, sym, ap, ◌∙◌, List, [], ◌∷◌, ◌++◌, Option, none, some, Bytes, codes, ◌==◌,
  ◌&&◌, if◌then◌else◌, starts_with, text_eq, text_eq_iff, u64, arith, Bool-cases, inl, inr, length,
  get_elem?,
}
use omniprobe.Prelude.Maps.{text_key, lookup, upsert, lookup-upsert_at, same_or_kept}
use omniprobe.BasicBlocks.{BlockInfo}

-- What an execution of the block counts for an instruction: the lanes for a vector instruction.
unfoldable pub weight_of : BlockInfo → Bytes → ℕ
weight_of info inst = if starts_with (codes "v_") inst then info.thread_count else info.count

-- The entry of an instruction after the block.
abbrev pub counted : ℕ → Option ℕ → ℕ
counted weight none = weight
counted weight (some count) = u64 (count + weight)

-- The loop over the instructions of a block.
unfoldable pub count_instructions :
    BlockInfo → List (Bytes × ℕ) → List (Bytes × ℕ) → List (Bytes × ℕ)
unfolding weight_of starts_with
count_instructions info [] inst_counts = inst_counts
count_instructions info ((inst, block) ∷ rest) inst_counts =
    count_instructions info rest (upsert inst (counted (weight_of info inst)) inst_counts)

-- The counts with which each block is reported.
unfoldable pub reported_counts :
    List (BlockInfo × List (Bytes × ℕ)) → List (Bytes × ℕ) → List (List (Bytes × ℕ))
unfolding count_instructions
reported_counts [] inst_counts = []
reported_counts ((info, instructions) ∷ rest) inst_counts =
    let counts = count_instructions info instructions inst_counts in
    counts ∷ reported_counts rest counts

-- How often an instruction stands in a block.
abbrev pub occurrences : Bytes → List (Bytes × ℕ) → ℕ
occurrences inst [] = 0
occurrences inst ((name, block) ∷ rest) =
    (if text_eq inst name then 1 else 0) + occurrences inst rest

-- The executions that a block has of an instruction: one for each lane, if its name begins with a `v`
-- and an underscore, and otherwise one for each time that the block was run.
abbrev pub runs : BlockInfo → Bytes → ℕ
runs info [] = info.count
runs info (c ∷ []) = info.count
runs info (c ∷ d ∷ name) = if c == 118 && d == 95 then info.thread_count else info.count

weight_of-runs : (info : BlockInfo) (inst : Bytes) → weight_of info inst ≡ runs info inst
unfolding weight_of starts_with
weight_of-runs info [] = ground arith
weight_of-runs info (c ∷ []) = ground arith
weight_of-runs info (c ∷ d ∷ name) = ground arith

-- The executions of an instruction in the blocks.
abbrev pub executions : Bytes → List (BlockInfo × List (Bytes × ℕ)) → ℕ
executions inst [] = 0
executions inst ((info, instructions) ∷ rest) =
    occurrences inst instructions * runs info inst + executions inst rest

abbrev pub or_zero : Option ℕ → ℕ
or_zero none = 0
or_zero (some count) = count

none_more : (o w : ℕ) → 0 + o * w ≡ (0 + o) * w
none_more o w = grind arith

counted_lem : (weight : ℕ) (o : Option ℕ) → u64 (counted weight o) ≡ u64 (or_zero o + weight)
counted_lem weight none = omega arith
counted_lem weight (some count) = omega arith

-- One more entry of an instruction.
upsert_count :
    (inst name : Bytes) (weight : ℕ) (m : List (Bytes × ℕ))
    → u64 (or_zero (lookup inst (upsert name (counted weight) m)))
      ≡ u64 (or_zero (lookup inst m) + (if text_eq inst name then weight else 0))
upsert_count inst name weight m = elim (Bool-cases (text_eq inst name)) [
  | inl e ↦
      let same = (text_eq_iff inst name).0 e in
      rw (e, lookup-upsert_at name (counted weight) m inst same)
        (counted_lem weight (lookup inst m))
  | inr e ↦ elim (same_or_kept name (counted weight) m inst) [
    | inl same ↦ ground (arith, e, (text_eq_iff inst name).1 same)
    | inr kept ↦ rw (e, kept) (omega arith)
  ]
]

counts_add :
    (last next before d p : ℕ)
    → u64 last ≡ u64 (next + p)
    → u64 next ≡ u64 (before + d)
    → u64 last ≡ u64 (before + (d + p))
counts_add last next before d p h k = omega arith

one_more : (o w : ℕ) → w + o * w ≡ (1 + o) * w
one_more o w = grind arith

count_instructions_lem :
    (inst : Bytes) (info : BlockInfo) (instructions m : List (Bytes × ℕ))
    → u64 (or_zero (lookup inst (count_instructions info instructions m)))
      ≡ u64 (or_zero (lookup inst m) + occurrences inst instructions * runs info inst)
unfolding count_instructions
count_instructions_lem inst info [] m = omega arith
count_instructions_lem inst info ((name, block) ∷ rest) m =
    let w = runs info inst in
    let next = upsert name (counted (weight_of info name)) m in
    let ih = count_instructions_lem inst info rest next in
    let step = upsert_count inst name (weight_of info name) m in
    elim (Bool-cases (text_eq inst name)) [
      | inl e ↦
          let same : weight_of info name ≡ w =
            ap (weight_of info) (sym ((text_eq_iff inst name).0 e)) ∙ weight_of-runs info inst in
          rw e (
            counts_add _ _ (or_zero (lookup inst m)) w (occurrences inst rest * w) ih
              (step ∙ rw (e, same) refl)
            ∙ ap (λ n. u64 (or_zero (lookup inst m) + n)) (one_more (occurrences inst rest) w))
      | inr e ↦ rw e (
          counts_add _ _ (or_zero (lookup inst m)) 0 (occurrences inst rest * w) ih
            (step ∙ rw e refl)
          ∙ ap (λ n. u64 (or_zero (lookup inst m) + n)) (none_more (occurrences inst rest) w))
    ]

zero_plus : (n : ℕ) → 0 + n ≡ n
zero_plus n = omega arith

plus_zero : (n : ℕ) → n ≡ n + 0
plus_zero n = omega arith

reported_from :
    (before : List (BlockInfo × List (Bytes × ℕ))) (info : BlockInfo)
    (instructions : List (Bytes × ℕ)) (rest : List (BlockInfo × List (Bytes × ℕ)))
    (m : List (Bytes × ℕ))
    → (counts : List (Bytes × ℕ)) × (get_elem?
          (reported_counts (before ++ (info, instructions) ∷ rest) m)
          (length before)
        ≡ some counts)
      × ((inst : Bytes)
          → u64 (or_zero (lookup inst counts))
            ≡ u64 (or_zero (lookup inst m) + executions inst (before ++ (info, instructions) ∷ [])))
unfolding reported_counts
reported_from [] info instructions rest m = (
  count_instructions info instructions m,
  refl,
  λ inst.
      count_instructions_lem inst info instructions m
      ∙ ap (λ n. u64 (or_zero (lookup inst m) + n))
          (plus_zero (occurrences inst instructions * runs info inst)),
)
reported_from ((first, firsts) ∷ before) info instructions rest m =
    let next = count_instructions first firsts m in
    let (counts, found, ih) = reported_from before info instructions rest next in
    (
      counts,
      found,
      λ inst.
          counts_add _ _ (or_zero (lookup inst m)) (occurrences inst firsts * runs first inst)
            (executions inst (before ++ (info, instructions) ∷ [])) (ih inst)
            (count_instructions_lem inst first firsts m),
    )

-- The counts with which a block is reported: for each instruction, its executions in this block and in all
-- blocks before it, lane by lane for a vector instruction, as a number of 64 bits.
pub reported_counts-executions :
    (before : List (BlockInfo × List (Bytes × ℕ))) (info : BlockInfo)
    (instructions : List (Bytes × ℕ)) (rest : List (BlockInfo × List (Bytes × ℕ)))
    → (counts : List (Bytes × ℕ)) × (get_elem?
          (reported_counts (before ++ (info, instructions) ∷ rest) [])
          (length before)
        ≡ some counts)
      × ((inst : Bytes)
          → u64 (or_zero (lookup inst counts))
            ≡ u64 (executions inst (before ++ (info, instructions) ∷ [])))
unfolding lookup
reported_counts-executions before info instructions rest =
    let (counts, found, sums) = reported_from before info instructions rest [] in
    (
      counts,
      found,
      λ inst.
          sums inst ∙ ap u64 (zero_plus (executions inst (before ++ (info, instructions) ∷ []))),
    )
