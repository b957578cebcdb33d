-- ===== src/MemoryAnalysis/Handler/Global.antt =====
-- What a global memory access adds, by `handle` of src/memory_analysis_handler.cc.
use omniprobe.Prelude.{ℕ, ◌+◌, ◌<◌, ◌≡◌, false, List, some, Bytes, ◌==◌, two64, arith}
use omniprobe.Comms.{address, AddressSpace, Header, Message, Platform}
use omniprobe.MemoryAnalysis.Accesses.{GlobalAccess, update_located, merge_global}
use omniprobe.MemoryAnalysis.Accesses.Totals.{
  located_at, located_at-update_self, located_at-update-Elsewhere, Elsewhere, executions,
  lines_needed, lines_used, merge_global_totals,
}
use omniprobe.MemoryAnalysis.Dwarf.{DwarfInfo, get_dwarf_info, space_field}
use omniprobe.MemoryAnalysis.Handler.{
  State, measure_global, handle_cache_line_count_analysis, handle_space, handle_type, handle,
}

measured_once :
    (p : Platform) (line_size : ℕ) (info : DwarfInfo) (message : Message) {current : GlobalAccess}
    → measure_global p line_size info message ≡ some current
    → current.access.no_accesses ≡ 1
unfolding measure_global
measured_once p line_size info message e = ground arith

-- What kernelDB knows of the message.
abbrev pub info_of : Platform → Message → State → DwarfInfo
info_of p message st = get_dwarf_info p st.kdb st.kernel_name message.header

-- The records of the source location of a global access.
abbrev pub global_here : Bytes → Header → State → List GlobalAccess
global_here file h st = located_at file h.dwarf_line h.dwarf_column st.global_accesses

module _ (p : Platform) (message : Message) (st : State) (current : GlobalAccess)
    (is_address : message.header.user_type ≡ address)
    (is_global : p.space_of (space_field message.header) ≡ AddressSpace.global)
    (known_arch : (p.l2_cache_line_size message.header.arch == 0) ≡ false)
    (found : ((info_of p message st).access_size == 0xffff) ≡ false)
    (measured : measure_global p
        (p.l2_cache_line_size message.header.arch)
        (info_of p message st)
        message
      ≡ some current) where
  handle_global :
      ((handle p message st).0.global_accesses
        ≡ update_located
            (info_of p message st).fname
            message.header.dwarf_line
            message.header.dwarf_column
            (merge_global current)
            st.global_accesses)
      × ((handle p message st).0.lds_accesses ≡ st.lds_accesses)
  unfolding handle handle_type handle_space handle_cache_line_count_analysis
  handle_global = (ground arith, ground arith)

  -- A global access from a known architecture, of a line with instructions, which is not dropped as
  -- an artefact of its corrected size, adds one execution, its needed and its used cache lines to
  -- the records of its source location, and changes the records of no other location and no LDS
  -- access. The totals must fit 64 bits.
  pub handle_global_totals :
      (f : Bytes) (l c : ℕ)
      → executions (global_here (info_of p message st).fname message.header st) + 1 < two64
      → lines_needed (global_here (info_of p message st).fname message.header st)
          + current.min_cache_lines_needed
        < two64
      → lines_used (global_here (info_of p message st).fname message.header st)
          + current.no_cache_lines_used
        < two64
      → Elsewhere f l c
          (info_of p message st).fname
          message.header.dwarf_line
          message.header.dwarf_column
      → (executions
            (global_here (info_of p message st).fname message.header (handle p message st).0)
          ≡ executions (global_here (info_of p message st).fname message.header st) + 1)
        × (lines_needed
              (global_here (info_of p message st).fname message.header (handle p message st).0)
            ≡ lines_needed (global_here (info_of p message st).fname message.header st)
              + current.min_cache_lines_needed)
        × (lines_used
              (global_here (info_of p message st).fname message.header (handle p message st).0)
            ≡ lines_used (global_here (info_of p message st).fname message.header st)
              + current.no_cache_lines_used)
        × (located_at f l c (handle p message st).0.global_accesses
            ≡ located_at f l c st.global_accesses)
        × ((handle p message st).0.lds_accesses ≡ st.lds_accesses)
  handle_global_totals f l c s₁ s₂ s₃ away =
      let h = message.header in
      let file = (info_of p message st).fname in
      let (stored, kept) = handle_global in
      let here =
        located_at-update_self file h.dwarf_line h.dwarf_column (merge_global current)
          st.global_accesses in
      let one =
        measured_once p (p.l2_cache_line_size h.arch) (info_of p message st) message measured in
      let (x, y, z) = merge_global_totals current (global_here file h st) one s₁ s₂ s₃ in
      rw (stored, here)
        (
          x,
          y,
          z,
          located_at-update-Elsewhere file h.dwarf_line h.dwarf_column (merge_global current)
              st.global_accesses f l c away,
          kept,
        )
