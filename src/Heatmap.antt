-- ===== src/Heatmap.antt =====
-- src/memory_heatmap.cc: accesses counted by memory page. What `report` prints is its rows; the text
-- around them and the log file are not modelled.
use omniprobe.Prelude.{
  ℕ, ◌+◌, ◌-◌, ◌*◌, ◌/◌, ◌<◌, ◌≡◌, ap, Bool, true, false, ◌&&◌, List, [], ◌∷◌, map, Option, none,
  some, if◌then◌else◌, ◌==◌, ltb, leb, u64, two64, arith, All,
}
use omniprobe.Prelude.Maps.{lookup, upsert, nat_key, same_or_kept, lookup-upsert_at}
use native.Mathlib.Nat.{div-mul-le_self, lt-div-mul-add, div-eq_of_lt-le}
use native.Mathlib.Decide.{dec_lt}
use omniprobe.Comms.{MessageType, Message}

pub record Heatmap : Type 0 where
  pub page_size : ℕ
  pub page_counts : List (ℕ × ℕ)

abbrev pub or_zero : Option ℕ → ℕ
or_zero none = 0
or_zero (some n) = n

-- The lowest address on the page of an address.
abbrev pub page_of : ℕ → ℕ → ℕ
page_of page_size address = u64 (address / page_size * page_size)

unfoldable pub count_all : ℕ → List ℕ → List (ℕ × ℕ) → List (ℕ × ℕ)
count_all page_size [] counts = counts
count_all page_size (address ∷ addresses) counts =
    count_all page_size addresses
      (upsert (page_of page_size address) (λ old. u64 (or_zero old + 1)) counts)

unfoldable pub handle_type : MessageType → Message → Heatmap → Heatmap × Bool
unfolding count_all
handle_type MessageType.address message h =
    (record h { page_counts = count_all h.page_size message.addresses h.page_counts }, true)
handle_type _ message h = (h, false)

unfoldable pub handle : Message → Heatmap → Heatmap × Bool
unfolding handle_type
handle message h = handle_type message.header.user_type message h

-- A row of the report: the page's first and last address, and its accesses.
pub record Row : Type 0 where
  pub first_page_address : ℕ
  pub last_page_address : ℕ
  pub accesses : ℕ

unfoldable pub report : Heatmap → List Row
report h =
    map
      (λ entry. record {
        first_page_address = entry.0;
        last_page_address = u64 (entry.0 + h.page_size + (two64 - 1));
        accesses = entry.1;
      })
      h.page_counts

unfoldable pub clear : Heatmap → Heatmap
clear h = record h { page_counts = [] }

-- The count of the page that starts at an address.
unfoldable pub count_at : ℕ → List (ℕ × ℕ) → ℕ
count_at page counts = or_zero (lookup page counts)

-- The addresses from `lo` on, below `hi`.
unfoldable pub hits : ℕ → ℕ → List ℕ → ℕ
hits lo hi [] = 0
hits lo hi (a ∷ rest) = (if leb lo a && ltb a hi then 1 else 0) + hits lo hi rest

-- An address is on the page that starts at a multiple of the page size if it lies in its range.
page_range :
    (ps q a : ℕ)
    → 0 < ps
    → a < two64
    → (page_of ps a == q * ps) ≡ (leb (q * ps) a && ltb a (q * ps + ps))
page_range ps q a hp ha =
    let floor = div-mul-le_self a ps in
    let small : page_of ps a ≡ a / ps * ps = omega arith in
    elim (dec_lt a (q * ps)) [
      | yes before ↦ rw small (ground arith)
      | no since ↦ elim (dec_lt a (q * ps + ps)) [
        | yes within ↦
            let same : a / ps ≡ q = div-eq_of_lt-le ps (omega arith) (omega arith) in
            rw (small, same) (ground arith)
        | no past ↦ let reach : a < a / ps * ps + ps = lt-div-mul-add hp in rw small (ground arith)
      ]
    ]

count_at-upsert :
    (k j : ℕ) (counts : List (ℕ × ℕ))
    → (if k == j then 1 else 0) + count_at j counts < two64
    → count_at j (upsert k (λ old. u64 (or_zero old + 1)) counts)
      ≡ (if k == j then 1 else 0) + count_at j counts
unfolding count_at
count_at-upsert k j counts small =
    let bump = λ (old : Option ℕ). u64 (or_zero old + 1) in
    ground (arith, same_or_kept k bump counts j, lookup-upsert_at k bump counts j)

count_all_count :
    (ps q : ℕ) (addresses : List ℕ) (counts : List (ℕ × ℕ))
    → 0 < ps
    → All (λ a. a < two64) addresses
    → count_at (q * ps) counts + hits (q * ps) (q * ps + ps) addresses < two64
    → count_at (q * ps) (count_all ps addresses counts)
      ≡ count_at (q * ps) counts + hits (q * ps) (q * ps + ps) addresses
unfolding count_all hits
count_all_count ps q [] counts hp fit small = omega arith
count_all_count ps q (a ∷ addresses) counts hp fit small =
    let one : Bool → ℕ = λ b. if b then 1 else 0 in
    let next = upsert (page_of ps a) (λ old. u64 (or_zero old + 1)) counts in
    let same = ap one (page_range ps q a hp fit.0) in
    let step = count_at-upsert (page_of ps a) (q * ps) counts (omega (arith, same)) in
    let rest = count_all_count ps q addresses next hp fit.1 (omega (arith, same, step)) in
    omega (arith, same, step, rest)

-- After a message of addresses the count of a page has grown by the accesses between its first and
-- its last address, each taken once. The page size is positive, the addresses and the resulting
-- count fit 64 bits.
handle_count :
    (message : Message) (h : Heatmap) (q : ℕ)
    → message.header.user_type ≡ MessageType.address
    → 0 < h.page_size
    → All (λ a. a < two64) message.addresses
    → count_at (q * h.page_size) h.page_counts
        + hits (q * h.page_size) (q * h.page_size + h.page_size) message.addresses
      < two64
    → count_at (q * h.page_size) (handle message h).0.page_counts
      ≡ count_at (q * h.page_size) h.page_counts
        + hits (q * h.page_size) (q * h.page_size + h.page_size) message.addresses
unfolding handle handle_type
handle_count message h q is_address positive fit small =
    ground (arith, count_all_count h.page_size q message.addresses h.page_counts)
