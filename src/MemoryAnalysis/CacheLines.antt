-- ===== src/MemoryAnalysis/CacheLines.antt =====
-- The L2 cache lines of a global memory access: the counting part of
-- memory_analysis_handler_t::handle_cache_line_count_analysis in src/memory_analysis_handler.cc.
-- The arithmetic is that of uint64_t. The loop over the lines of one address is a run of numbers,
-- which it is where its counter does not wrap: the lines are at least two bytes long.
use omniprobe.Prelude.{
  ℕ, zero, suc, ◌+◌, ◌-◌, ◌*◌, ◌/◌, ◌≤◌, ◌<◌, ◌≡◌, ◌↔◌, ◌⊎◌, inl, inr, refl, sym, ap, ◌∙◌, true,
  ◌&&◌, List, [], ◌∷◌, length, contains, range_from, All, arith, ltb, leb, two64, u64, or_iff,
}
use native.Mathlib.Nat.{
  le-div_iff_mul-le, div-lt_iff_lt-mul, div-eq_of_lt, div-eq_of_lt-le, div-mul-le_self,
  mul-add-div_right, add-div_right,
}
use Prim.Native.Nat.{max}
use native.Mathlib.Decide.{dec_lt}
use omniprobe.Prelude.Sets.{insert, insert_all, contains-insert_all}

-- The lines from that of the first byte to that of the last byte.
unfoldable pub lines_of : ℕ → ℕ → ℕ → List ℕ
lines_of line_size data_size address =
    let first = address / line_size in
    let last = u64 (address + data_size + (two64 - 1)) / line_size in
    range_from first (last + 1 - first)

unfoldable pub cache_lines : ℕ → ℕ → List ℕ → List ℕ → List ℕ
unfolding lines_of insert_all
cache_lines line_size data_size [] lines = lines
cache_lines line_size data_size (address ∷ addresses) lines =
    cache_lines line_size data_size addresses
      (insert_all (lines_of line_size data_size address) lines)

unfoldable pub min_cache_lines : ℕ → ℕ → ℕ → ℕ
min_cache_lines line_size data_size items =
    u64 (items * data_size + line_size + (two64 - 1)) / line_size

contains-range_from : (a n x : ℕ) → contains (range_from a n) x ≡ (leb a x && ltb x (a + n))
contains-range_from a zero x = ground arith
contains-range_from a (suc n) x = ground (arith, contains-range_from (suc a) n x)

-- A byte of the access lies on the line.
abbrev pub OnLine : ℕ → ℕ → ℕ → ℕ → Type 0
OnLine line_size data_size address line =
    (k : ℕ) × (k < data_size) × ((address + k) / line_size ≡ line)

-- The lines of one address lie between two quotients.
contains-lines_of :
    (ls ds a c : ℕ)
    → 0 < ds
    → a + ds ≤ two64
    → (contains (lines_of ls ds a) c ≡ true) ↔ ((a / ls ≤ c) × (c ≤ (a + ds - 1) / ls))
unfolding lines_of
contains-lines_of ls ds a c hd fits =
    let last : u64 (a + ds + (two64 - 1)) ≡ a + ds - 1 = omega arith in
    let run = contains-range_from (a / ls) ((a + ds - 1) / ls + 1 - a / ls) c in
    rw last (λ h. ground (arith, run), λ h. ground (arith, run))

lines_of_bytes :
    (ls ds a c : ℕ)
    → 0 < ls
    → 0 < ds
    → a + ds ≤ two64
    → (contains (lines_of ls ds a) c ≡ true) ↔ OnLine ls ds a c
lines_of_bytes ls ds a c hl hd fits =
    let between = contains-lines_of ls ds a c hd fits in
    (
      λ h.
          let (lo, hi) = between.0 h in
          let below : c * ls ≤ a + ds - 1 = (le-div_iff_mul-le hl).0 hi in
          let above : a < (c + 1) * ls = (div-lt_iff_lt-mul hl).0 (omega arith) in
          (c * ls - a, omega arith, div-eq_of_lt-le ls (omega arith) (omega arith)),
      λ (k, hk, e).
          let below : c * ls ≤ a + k = (le-div_iff_mul-le hl).0 (omega arith) in
          let above : a + k < (c + 1) * ls = (div-lt_iff_lt-mul hl).0 (omega arith) in
          let lo : a / ls < c + 1 = (div-lt_iff_lt-mul hl).1 (omega arith) in
          between.1 (omega arith, (le-div_iff_mul-le hl).1 (omega arith)),
    )

-- Some address of the list has a byte on the line.
abbrev pub Touched : ℕ → ℕ → List ℕ → ℕ → Type 0
Touched line_size data_size [] line = ⊥
Touched line_size data_size (address ∷ addresses) line =
    OnLine line_size data_size address line ⊎ Touched line_size data_size addresses line

collected :
    (ls ds : ℕ) (addrs s : List ℕ) (c : ℕ)
    → 0 < ls
    → 0 < ds
    → All (λ a. a + ds ≤ two64) addrs
    → (contains (cache_lines ls ds addrs s) c ≡ true)
      ↔ (Touched ls ds addrs c ⊎ (contains s c ≡ true))
unfolding cache_lines
collected ls ds [] s c hl hd fits = (inr, λ t. elim t [ inl x ↦ absurd x | inr h ↦ h ])
collected ls ds (a ∷ addrs) s c hl hd fits =
    let rest = collected ls ds addrs (insert_all (lines_of ls ds a) s) c hl hd fits.1 in
    let here = lines_of_bytes ls ds a c hl hd fits.0 in
    let joined = contains-insert_all c (lines_of ls ds a) s in
    let either = or_iff (contains (lines_of ls ds a) c) (contains s c) in
    (
      λ h. elim (rest.0 h) [
        | inl t ↦ inl (inr t)
        | inr e ↦ elim (either.0 (sym joined ∙ e)) [ inl l ↦ inl (inl (here.0 l)) | inr r ↦ inr r ]
      ],
      λ t. elim t [
        | inl (inl o) ↦ rest.1 (inr (joined ∙ either.1 (inl (here.1 o))))
        | inl (inr o) ↦ rest.1 (inl o)
        | inr e ↦ rest.1 (inr (joined ∙ either.1 (inr e)))
      ],
    )

-- For a positive line size and data size, and addresses whose accesses end within 64 bits, the
-- counted set holds exactly the cache lines on which some lane reads or writes a byte.
pub cache_lines-Touched :
    (line_size data_size : ℕ) (addresses : List ℕ) (line : ℕ)
    → 0 < line_size
    → 0 < data_size
    → All (λ address. address + data_size ≤ two64) addresses
    → (contains (cache_lines line_size data_size addresses []) line ≡ true)
      ↔ Touched line_size data_size addresses line
cache_lines-Touched ls ds addrs c hl hd fits =
    let both = collected ls ds addrs [] c hl hd fits in
    (λ h. elim (both.0 h) [ inl t ↦ t | inr e ↦ absurd (cc e) ], λ t. both.1 (inl t))

-- The lanes of a coalesced access, one item after the other.
abbrev pub consecutive : ℕ → ℕ → ℕ → List ℕ
consecutive data_size address zero = []
consecutive data_size address (suc n) = address ∷ consecutive data_size (address + data_size) n

insert_present : (q m a : ℕ) → q ≤ a → a < q + m → insert a (range_from q m) ≡ range_from q m
unfolding insert
insert_present q zero a h k = absurd (omega arith)
insert_present q (suc m) a h k = ground (arith, insert_present (suc q) m a)

insert_end : (q m : ℕ) → insert (q + m) (range_from q m) ≡ range_from q (suc m)
unfolding insert
insert_end q zero = ground arith
insert_end q (suc m) =
    let e : q + suc m ≡ suc q + m = omega arith in ground (arith, e, insert_end (suc q) m)

-- Inserting a run that starts inside another, or just behind it, makes them one run.
merge_runs :
    (a n q m r : ℕ)
    → q ≤ a
    → a ≤ q + m
    → r ≡ max m (a + n - q)
    → insert_all (range_from a n) (range_from q m) ≡ range_from q r
unfolding insert_all
merge_runs a zero q m r h k e = let same : r ≡ m = omega arith in rw same refl
merge_runs a (suc n) q m r h k e = elim (dec_lt a (q + m)) [
  | yes inside ↦
      ap (insert_all (range_from (suc a) n)) (insert_present q m a h inside)
      ∙ merge_runs (suc a) n q m r (omega arith) (omega arith) (omega arith)
  | no outside ↦
      let end : a ≡ q + m = omega arith in
      ap (insert_all (range_from (suc a) n)) (rw end (insert_end q m))
      ∙ merge_runs (suc a) n q (suc m) r (omega arith) (omega arith) (omega arith)
]

div_mono : (k a b : ℕ) → 0 < k → a ≤ b → a / k ≤ b / k
div_mono k a b hk h = let floor = div-mul-le_self a k in (le-div_iff_mul-le hk).1 (omega arith)

-- The lines of one item join the lines of the items before it.
join_item :
    (ls ds q x : ℕ)
    → 0 < ls
    → 0 < ds
    → q * ls + x + ds ≤ two64
    → insert_all (lines_of ls ds (q * ls + x)) (range_from q ((x + ls - 1) / ls))
      ≡ range_from q ((x + ds + ls - 1) / ls)
unfolding lines_of
join_item ls ds q x hl hd fits =
    let last : u64 (q * ls + x + ds + (two64 - 1)) ≡ q * ls + (x + ds - 1) = omega arith in
    let first_line = mul-add-div_right hl q x in
    let last_line = mul-add-div_right hl q (x + ds - 1) in
    let more : (x + ds + ls - 1) / ls ≡ (x + ds - 1) / ls + 1 =
      ap (λ y. y / ls) (omega arith) ∙ add-div_right (x + ds - 1) hl in
    let up : x / ls ≤ (x + ls - 1) / ls = div_mono ls _ _ hl (omega arith) in
    let on : x / ls ≤ (x + ds - 1) / ls = div_mono ls _ _ hl (omega arith) in
    let wide : (x + ls - 1) / ls ≤ (x + ds + ls - 1) / ls = div_mono ls _ _ hl (omega arith) in
    rw (last, first_line, last_line)
      (merge_runs (q + x / ls) _ q _ _ (omega arith) (omega arith) (omega arith))

-- From the line of `q`, `x` bytes into the run of lanes, the lines so far are those of the bytes so
-- far, and so they are after `n` more items.
coalesced_from :
    (ls ds q n x : ℕ)
    → 0 < ls
    → 0 < ds
    → q * ls + x + n * ds ≤ two64
    → cache_lines ls ds (consecutive ds (q * ls + x) n) (range_from q ((x + ls - 1) / ls))
      ≡ range_from q ((x + n * ds + ls - 1) / ls)
unfolding cache_lines
coalesced_from ls ds q zero x hl hd fits = ap (λ y. range_from q ((y + ls - 1) / ls)) (omega arith)
coalesced_from ls ds q (suc n) x hl hd fits =
    let moved : q * ls + x + ds ≡ q * ls + (x + ds) = omega arith in
    let joined = join_item ls ds q x hl hd (grind arith) in
    let rest : cache_lines ls ds (consecutive ds (q * ls + x + ds) n)
          (range_from q ((x + ds + ls - 1) / ls))
        ≡ range_from q ((x + ds + n * ds + ls - 1) / ls) =
      rw moved (coalesced_from ls ds q n (x + ds) hl hd (grind arith)) in
    ap (cache_lines ls ds (consecutive ds (q * ls + x + ds) n)) joined
    ∙ rest
    ∙ ap (λ y. range_from q ((y + ls - 1) / ls)) (grind arith)

length-range_from : (a n : ℕ) → length (range_from a n) ≡ n
length-range_from a zero = refl
length-range_from a (suc n) = ap suc (length-range_from (suc a) n)

-- For a positive line size and data size, a coalesced access, one that starts on a cache line and
-- whose items follow one another, uses exactly the minimum number of cache lines that the handler
-- computes, if it ends within 64 bits with a line to spare.
cache_lines_coalesced :
    (line_size data_size q items : ℕ)
    → 0 < line_size
    → 0 < data_size
    → q * line_size + items * data_size + line_size ≤ two64
    → length (cache_lines line_size data_size (consecutive data_size (q * line_size) items) [])
      ≡ min_cache_lines line_size data_size items
unfolding min_cache_lines
cache_lines_coalesced ls ds q n hl hd fits =
    let none_yet : (0 + ls - 1) / ls ≡ 0 = div-eq_of_lt (omega arith) in
    let exact : u64 (n * ds + ls + (two64 - 1)) ≡ 0 + n * ds + ls - 1 = omega arith in
    let origin : q * ls ≡ q * ls + 0 = omega arith in
    let run = coalesced_from ls ds q n 0 hl hd (omega arith) in
    rw (exact, origin) (ap length (rw none_yet at run) ∙ length-range_from q _)
