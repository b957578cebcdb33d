-- ===== src/MemoryAnalysis/Handler/Effects.antt =====
-- What `handle` of src/memory_analysis_handler.cc does to the state of the handler.
use omniprobe.Prelude.{
  ℕ, ◌≡◌, refl, sym, ap, ◌∙◌, Bool, true, false, not, ◌==◌, if◌then◌else◌, List, [], ◌∷◌, Option,
  none, some, arith, All, Option-cases, inl, inr,
}
use omniprobe.Prelude.Maps.{lookup, upsert, nat_key, assign_self, lookup-All}
use omniprobe.Comms.{MessageType, address, AddressSpace, Header, Message, Platform}
use omniprobe.MemoryAnalysis.Conflict.{ConflictSet, conflict_sets, count_conflicts}
use omniprobe.MemoryAnalysis.Conflict.Banks.{IsClean}
use omniprobe.MemoryAnalysis.Conflict.Freedom.{count_conflicts_restores, conflict_sets-IsClean}
use omniprobe.MemoryAnalysis.Accesses.{LdsAccess}
use omniprobe.MemoryAnalysis.Accesses.Totals.{located_at}
use omniprobe.MemoryAnalysis.Dwarf.{space_field, ir_size_of}
use omniprobe.MemoryAnalysis.Handler.{
  State, zip, lds_file, handle_cache_line_count_analysis, handle_bank_conflict_analysis,
  handle_space, handle_type, handle,
}

-- The conflict sets are those of the constructor.
abbrev pub SetsAreFresh : State → Type 0
SetsAreFresh st = st.sets ≡ conflict_sets

bank_conflict-SetsAreFresh :
    (p : Platform) (message : Message) (st : State)
    → SetsAreFresh st
    → SetsAreFresh (handle_bank_conflict_analysis p message st).0
unfolding handle_bank_conflict_analysis
bank_conflict-SetsAreFresh p message st fresh =
    let size = ir_size_of message.header in
    let items = zip (p.active_lanes message.header.exec) message.addresses in
    elim (Option-cases (lookup size st.sets)) [
      | inl e ↦ rw (e, handle_bank_conflict_analysis) fresh
      | inr (sets, e) ↦
          let clean : All IsClean sets =
            lookup-All (All IsClean) size conflict_sets conflict_sets-IsClean
              (ap (lookup size) (sym fresh) ∙ e) in
          let kept : upsert size (λ old. (count_conflicts items sets).1) st.sets ≡ conflict_sets =
            rw (count_conflicts_restores sets items clean)
              (assign_self size sets st.sets e ∙ fresh) in
          rw (e, handle_bank_conflict_analysis) kept
    ]

cache_line-SetsAreFresh :
    (p : Platform) (message : Message) (st : State)
    → SetsAreFresh st
    → SetsAreFresh (handle_cache_line_count_analysis p message st).0
unfolding handle_cache_line_count_analysis
cache_line-SetsAreFresh p message st fresh = ground arith

handle_space-SetsAreFresh :
    (p : Platform) (space : AddressSpace) (message : Message) (st : State)
    → SetsAreFresh st
    → SetsAreFresh (handle_space p space message st).0
unfolding handle_space
handle_space-SetsAreFresh p AddressSpace.global message st fresh =
    cache_line-SetsAreFresh p message st fresh
handle_space-SetsAreFresh p AddressSpace.shared message st fresh =
    bank_conflict-SetsAreFresh p message st fresh
handle_space-SetsAreFresh p _ message st fresh = fresh

handle-SetsAreFresh :
    (p : Platform) (message : Message) (st : State)
    → SetsAreFresh st
    → SetsAreFresh (handle p message st).0
unfolding handle handle_type
handle-SetsAreFresh p message st fresh =
    ground (arith, handle_space-SetsAreFresh p (p.space_of (space_field message.header)) message st)

-- The messages of a dispatch, one after the other.
unfoldable pub handle_all : Platform → List Message → State → State
handle_all p [] st = st
handle_all p (message ∷ messages) st = handle_all p messages (handle p message st).0

-- From a state whose conflict sets are those of the constructor, with empty banks, any messages
-- leave them so: a message never counts conflicts with an earlier one.
pub handle_all-SetsAreFresh :
    (p : Platform) (messages : List Message) (st : State)
    → SetsAreFresh st
    → SetsAreFresh (handle_all p messages st)
unfolding handle_all
handle_all-SetsAreFresh p [] st fresh = fresh
handle_all-SetsAreFresh p (message ∷ messages) st fresh =
    handle_all-SetsAreFresh p messages (handle p message st).0
      (handle-SetsAreFresh p message st fresh)

-- Is a message refused? An address message is accepted in the global space if the architecture has a
-- cache line size, and in the shared one if there are conflict sets for the size; another is refused.
abbrev pub refuses : MessageType → AddressSpace → ℕ → Option (List ConflictSet) → Bool
refuses MessageType.address AddressSpace.global line_size sets = line_size == 0
refuses MessageType.address AddressSpace.shared line_size none = true
refuses MessageType.address AddressSpace.shared line_size (some sets) = false
refuses MessageType.address space line_size sets = true
refuses kind space line_size sets = true

abbrev pub is_refused : Platform → Message → State → Bool
is_refused p message st =
    refuses message.header.user_type (p.space_of (space_field message.header))
      (p.l2_cache_line_size message.header.arch) (lookup (ir_size_of message.header) st.sets)

-- The result is whether the message is accepted; refused, it leaves the state.
abbrev pub Answers : Bool → State → State × Bool → Type 0
Answers refused st result = (result.1 ≡ not refused) × ((if refused then result.0 else st) ≡ st)

global-Answers :
    (p : Platform) (message : Message) (st : State)
    → Answers
        (p.l2_cache_line_size message.header.arch == 0)
        st
        (handle_cache_line_count_analysis p message st)
unfolding handle_cache_line_count_analysis
global-Answers p message st = (ground arith, ground arith)

shared-Answers :
    (p : Platform) (message : Message) (st : State)
    → Answers
        (refuses MessageType.address AddressSpace.shared
          (p.l2_cache_line_size message.header.arch)
          (lookup (ir_size_of message.header) st.sets))
        st
        (handle_bank_conflict_analysis p message st)
unfolding handle_bank_conflict_analysis
shared-Answers p message st = elim (Option-cases (lookup (ir_size_of message.header) st.sets)) [
  | inl n ↦ rw (handle_bank_conflict_analysis, n) (refl, refl)
  | inr (sets, n) ↦ rw (handle_bank_conflict_analysis, n) (refl, refl)
]

space-Answers :
    (p : Platform) (space : AddressSpace) (message : Message) (st : State)
    → Answers
        (refuses MessageType.address space
          (p.l2_cache_line_size message.header.arch)
          (lookup (ir_size_of message.header) st.sets))
        st
        (handle_space p space message st)
unfolding handle_space
space-Answers p AddressSpace.global message st = global-Answers p message st
space-Answers p AddressSpace.shared message st = shared-Answers p message st
space-Answers p _ message st = (refl, refl)

type-Answers :
    (p : Platform) (kind : MessageType) (message : Message) (st : State)
    → Answers
        (refuses kind
          (p.space_of (space_field message.header))
          (p.l2_cache_line_size message.header.arch)
          (lookup (ir_size_of message.header) st.sets))
        st
        (handle_type p kind message st)
unfolding handle_type
type-Answers p MessageType.address message st =
    space-Answers p (p.space_of (space_field message.header)) message st
type-Answers p _ message st = (refl, refl)

-- `handle` returns true exactly for an address message of the global space whose architecture has a
-- cache line size, or of the shared space with conflict sets for its access size; any other message
-- leaves the state as it was.
pub handle_refused :
    (p : Platform) (message : Message) (st : State)
    → Answers (is_refused p message st) st (handle p message st)
unfolding handle
handle_refused p message st = type-Answers p message.header.user_type message st

-- The conflicts that the access of a message counts in the given sets.
abbrev pub counted : Platform → Message → List ConflictSet → ℕ
counted p message sets =
    (count_conflicts (zip (p.active_lanes message.header.exec) message.addresses) sets).0

-- The records of the source location of an LDS access.
abbrev pub lds_here : State → State → Header → List LdsAccess
lds_here names st h = located_at (lds_file names h) h.dwarf_line h.dwarf_column st.lds_accesses
