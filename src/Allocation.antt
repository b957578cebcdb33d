-- ===== src/Allocation.antt =====
-- The allocators: KernArgAllocator of src/utils.cc and hsa_mem_mgr of src/hsa_mem_mgr.cc. The HSA
-- runtime is a parameter; what is done to memory is a list, the latest first. Sizes are size_t of 64
-- bits.
use omniprobe.Prelude.{
  ℕ, ◌+◌, ◌-◌, ◌*◌, ◌≤◌, ◌<◌, ◌≡◌, refl, sym, ap, ◌∙◌, Bool, true, List, ◌∷◌, Option, none, some,
  if◌then◌else◌, Option-cases, Bool-cases, inl, inr, two64, u64, arith,
}
use Prim.Native.Nat.{bit_and}
use omniprobe.Prelude.Masks.{pw, top, pw_sum, bit_and-IsRoundedDown, top_lem, pw_positive}

pub data Action : Type 0 where
  allocated zeroed : ℕ → ℕ → Action
  freed : ℕ → Action
  copied : ℕ → ℕ → ℕ → Action

-- hsa_amd_memory_pool_allocate, by what was done before; `none` is a failure. And
-- hsa_amd_agents_allow_access, and hsa_memory_copy.
pub record Pools : Type 0 where
  pub pool_allocate : List Action → ℕ → Option ℕ
  pub allow_access : ℕ → ℕ → Bool
  pub memory_copy : ℕ → ℕ → ℕ → Bool

-- `~mask`.
abbrev pub complement : ℕ → ℕ
complement mask = two64 - 1 - mask

-- `(size + mask) & ~mask`.
unfoldable pub round_up : ℕ → ℕ → ℕ
round_up size mask = bit_and (u64 (size + mask)) (complement mask)

-- RH_PAGE_MASK.
abbrev pub rh_page_mask : ℕ
rh_page_mask = 4095

-- KernArgAllocator::allocate; a null pointer is `none`.
unfoldable pub allocate : Pools → ℕ → ℕ → List Action → Option ℕ × List Action
unfolding round_up
allocate pools size allowed done = elim (pools.pool_allocate done (round_up size rh_page_mask)) [
  | none ↦ (none, done)
  | some buffer ↦ (
    (if pools.allow_access allowed buffer then some buffer else none),
    allocated buffer (round_up size rh_page_mask) ∷ done,
  )
]

-- hsa_mem_mgr::calloc, which clears the memory without a look at the pointer; for a null pointer that
-- is undefined.
unfoldable pub calloc : Pools → ℕ → ℕ → List Action → Option (ℕ × List Action)
calloc pools agent size done =
    let asked = allocate pools size agent done in
    elim (asked.0) [ none ↦ none | some buffer ↦ some (buffer, zeroed buffer size ∷ asked.1) ]

-- hsa_mem_mgr::free and free_device_memory, and KernArgAllocator::free.
unfoldable pub free : ℕ → List Action → List Action
free ptr done = freed ptr ∷ done

unfoldable pub copy : ℕ → ℕ → ℕ → List Action → ℕ × List Action
copy dst src size done = (dst, copied dst src size ∷ done)

-- hsa_mem_mgr::copy_to_device; `none` is the exception.
unfoldable pub copy_to_device : Pools → ℕ → ℕ → ℕ → List Action → Option (ℕ × List Action)
copy_to_device pools dst src size done =
    if pools.memory_copy dst src size then some (dst, copied dst src size ∷ done) else none

-- hsa_mem_mgr::calloc_device_memory; `none` is std::bad_alloc.
unfoldable pub calloc_device_memory : Pools → ℕ → ℕ → List Action → Option (ℕ × List Action)
calloc_device_memory pools min_alloc_size size done =
    let mask = min_alloc_size - 1 in
    let adjusted_size = round_up size mask in
    elim (pools.pool_allocate done adjusted_size) [
      | none ↦ none
      | some buffer ↦
          some (buffer, zeroed buffer adjusted_size ∷ allocated buffer adjusted_size ∷ done)
    ]

-- The rounded size is a multiple of the granule that is not less, and no granule more.
abbrev pub IsRoundedUp : ℕ → ℕ → ℕ → Type 0
IsRoundedUp granule size r = (q : ℕ) × (r ≡ q * granule) × (size ≤ r) × (r < size + granule)

round_up-IsRoundedUp :
    (k j size : ℕ)
    → pw_sum k j ≡ two64
    → size + pw k ≤ two64
    → IsRoundedUp (pw k) size (round_up size (pw k - 1))
unfolding round_up
round_up-IsRoundedUp k j size whole fits =
    let one = pw_positive k in
    let mask : complement (pw k - 1) ≡ top k j = omega (arith, top_lem k j) in
    let small : u64 (size + (pw k - 1)) ≡ size + (pw k - 1) = omega arith in
    let both : round_up size (pw k - 1) ≡ bit_and (size + (pw k - 1)) (top k j) =
      ap (λ x. bit_and x (complement (pw k - 1))) small
      ∙ ap (λ m. bit_and (size + (pw k - 1)) m) mask in
    let (q, e, below, near) =
      bit_and-IsRoundedDown k j (size + (pw k - 1)) (omega (arith, whole)) in
    (q, both ∙ e, omega (arith, both, below, near), omega (arith, both, below, near))

-- For a granule that is a power of two up to 2 ^ 64, and a size that does not pass 2 ^ 64 with it:
-- device memory is allocated, and cleared, in a size that is a multiple of the granule, not less than
-- what was asked for, and less than a granule more.
calloc_device_memory-IsRoundedUp :
    (pools : Pools) (k j size : ℕ) (done : List Action) {buffer : ℕ} {next : List Action}
    → pw_sum k j ≡ two64
    → size + pw k ≤ two64
    → calloc_device_memory pools (pw k) size done ≡ some (buffer, next)
    → (r : ℕ) × IsRoundedUp (pw k) size r
      × (pools.pool_allocate done r ≡ some buffer)
      × (next ≡ zeroed buffer r ∷ allocated buffer r ∷ done)
unfolding calloc_device_memory
calloc_device_memory-IsRoundedUp pools k j size done {buffer} {next} whole fits h =
    let r = round_up size (pw k - 1) in
    elim (Option-cases (pools.pool_allocate done r)) [
      | inl e ↦ absurd (ground (arith, h, e))
      | inr (b, e) ↦
          (r, round_up-IsRoundedUp k j size whole fits, ground (arith, h, e), ground (arith, h, e))
    ]

-- A kernel argument segment of a size that does not pass 2 ^ 64 with a page: if a pointer comes back, a
-- number of whole pages was allocated for it, not fewer bytes than asked for and less than a page
-- more, and the agent was given access.
allocate-IsRoundedUp :
    (pools : Pools) (size allowed : ℕ) (done : List Action) {buffer : ℕ}
    → size + 4096 ≤ two64
    → (allocate pools size allowed done).0 ≡ some buffer
    → (r : ℕ) × IsRoundedUp 4096 size r
      × (pools.pool_allocate done r ≡ some buffer)
      × (pools.allow_access allowed buffer ≡ true)
unfolding allocate
allocate-IsRoundedUp pools size allowed done {buffer} fits h =
    let r = round_up size rh_page_mask in
    elim (Option-cases (pools.pool_allocate done r)) [
      | inl e ↦ absurd (ground (arith, h, e))
      | inr (b, e) ↦ elim (Bool-cases (pools.allow_access allowed b)) [
        | inr a ↦ absurd (ground (arith, h, e, a))
        | inl a ↦
            let same : b ≡ buffer = ground (arith, h, e, a) in
            (
              r,
              round_up-IsRoundedUp 12 52 size refl fits,
              e ∙ ap some same,
              ap (pools.allow_access allowed) (sym same) ∙ a,
            )
      ]
    ]
