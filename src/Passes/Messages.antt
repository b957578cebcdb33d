-- ===== src/Passes/Messages.antt =====
-- The pass of src/instrumentation/AMDGCNSubmitAddressMessages.cpp against what its messages are to
-- report: block by block.
use omniprobe.Prelude.{
  ℕ, ◌+◌, ◌%◌, ◌^◌, ◌≡◌, refl, sym, ◌∙◌, true, false, not, ◌&&◌, List, [], ◌∷◌, ◌++◌, Option, none,
  some, Bytes, text_eq, if◌then◌else◌, All, any, map, arith, Bool-cases, inl, inr,
}
use omniprobe.Scope.{Scope}
use omniprobe.Passes.{
  Location, Operand, Instruction, Opcode, load, store, call, existing, Item, kept,
}
use omniprobe.Passes.Addresses.{
  is_amdgcn_buffer_load, is_amdgcn_buffer_store, original_pointer, buffer_address, submit_address,
  inject_buffer, inject, in_scope, instrument_block, instrument_addresses, is_empty_list, one_item,
}
use omniprobe.Passes.Reported.{
  Machine, events_of, trace, IrAccess, base_of, load_access, store_access, accessed, is_plain,
  is_struct, is_plain_load, is_plain_store, report_of, is_selected, report_in, expected, is_report,
  reports_any,
}

in_scope-is_selected :
    (scope : Scope) (loc : Option Location) → in_scope scope loc ≡ is_selected scope loc
unfolding in_scope is_selected
in_scope-is_selected scope none = refl
in_scope-is_selected scope (some loc) = ground arith

module _ (m : Machine) where
  original_pointer-base_of : (desc : Operand) → m.value (original_pointer desc) ≡ base_of m desc
  unfolding original_pointer base_of
  original_pointer-base_of desc = ground (arith, m.null_pointer_lem)

  buffer_address-value :
      (desc offset : Operand)
      → m.value (buffer_address desc offset)
        ≡ (base_of m desc + m.extended (m.value (existing offset.value))) % 2 ^ 64
  unfolding buffer_address
  buffer_address-value desc offset =
      rw
        (
          m.int_to_ptr_lem,
          m.sum_of_lem,
          m.ptr_to_int_lem,
          m.sign_extend_lem,
          original_pointer-base_of desc,
        )
        refl

  module _ (hash : Bytes → ℕ) (loc : Option Location) where
    -- What is inserted reports the access.
    abbrev Reports : Option IrAccess → List Item → Type 0
    Reports access items =
        ((rest : List Item)
          → trace m (items ++ rest) ≡ events_of (report_of hash loc access) ++ trace m rest)
        × (not (is_empty_list items) ≡ is_report (report_of hash loc access))

    buffer-Reports :
        (desc offset : Operand) (kind size scalar : ℕ)
        → scalar ≡ 0
        → Reports
            (some (record {
              address =
                  (base_of m desc + m.extended (m.value (existing offset.value)) + scalar) % 2 ^ 64;
              access_type = kind;
              address_space = 1;
              size = size;
            }))
            (submit_address hash (buffer_address desc offset) loc kind 1 size ∷ [])
    unfolding trace submit_address report_of text_eq
    buffer-Reports desc offset kind size scalar zero_scalar =
        let same : base_of m desc + m.extended (m.value (existing offset.value)) + scalar
            ≡ base_of m desc + m.extended (m.value (existing offset.value)) =
          omega arith in
        (λ rest. rw (same, sym (buffer_address-value desc offset)) refl, refl)

    abbrev Inserted : Option (List Item) → Option IrAccess → Type 0
    Inserted inserted access = (items : List Item) × (inserted ≡ some items) × Reports access items

    load-Inserted :
        (args : List Operand) (size : ℕ) (callee : Option Bytes)
        → (not (is_struct callee) && is_plain_load m args) ≡ true
        → Inserted (one_item (inject_buffer hash true args size loc)) (load_access m args size)
    unfolding inject_buffer load_access
    load-Inserted (desc ∷ offset ∷ scalar ∷ rest) size callee h = (
      _,
      refl,
      buffer-Reports desc offset 1 size (m.value (existing scalar.value)) (ground (arith, h)),
    )
    load-Inserted (desc ∷ offset ∷ []) size callee h = absurd (ground (arith, h))
    load-Inserted (desc ∷ []) size callee h = absurd (ground (arith, h))
    load-Inserted [] size callee h = absurd (ground (arith, h))

    store-Inserted :
        (args : List Operand) (size : ℕ) (callee : Option Bytes)
        → (not (is_struct callee) && is_plain_store m args) ≡ true
        → Inserted (one_item (inject_buffer hash false args size loc)) (store_access m args)
    unfolding inject_buffer store_access
    store-Inserted (value ∷ desc ∷ offset ∷ scalar ∷ rest) size callee h = (
      _,
      refl,
      buffer-Reports desc offset 2 value.store_size (m.value (existing scalar.value))
          (ground (arith, h)),
    )
    store-Inserted (value ∷ desc ∷ offset ∷ []) size callee h = absurd (ground (arith, h))
    store-Inserted (value ∷ desc ∷ []) size callee h = absurd (ground (arith, h))
    store-Inserted (value ∷ []) size callee h = absurd (ground (arith, h))
    store-Inserted [] size callee h = absurd (ground (arith, h))

    call-Inserted :
        (callee : Option Bytes) (args : List Operand) (size : ℕ)
        → is_plain m (call callee args size) ≡ true
        → Inserted (inject hash loc (call callee args size)) (accessed m (call callee args size))
    unfolding inject accessed is_plain is_amdgcn_buffer_load is_amdgcn_buffer_store events_of trace
        report_of
    call-Inserted callee args size h =
        elim (is_amdgcn_buffer_load callee)
            as (λ b.
              ((if b
                  then not (is_struct callee) && is_plain_load m args
                  else if is_amdgcn_buffer_store callee
                  then not (is_struct callee) && is_plain_store m args
                  else true)
                ≡ true)
              → Inserted
                  (if b
                    then one_item (inject_buffer hash true args size loc)
                    else if is_amdgcn_buffer_store callee
                    then one_item (inject_buffer hash false args size loc)
                    else some [])
                  (if b
                    then load_access m args size
                    else if is_amdgcn_buffer_store callee
                    then store_access m args
                    else none)) [
                      | true ↦ load-Inserted args size callee
                      | false ↦
                          elim (is_amdgcn_buffer_store callee)
                            as (λ b.
                              ((if b then not (is_struct callee) && is_plain_store m args else true)
                                ≡ true)
                              → Inserted
                                  (if b
                                    then one_item (inject_buffer hash false args size loc)
                                    else some [])
                                  (if b then store_access m args else none)) [
                                    | true ↦ store-Inserted args size callee
                                    | false ↦ λ h'. ([], refl, (λ rest. refl, refl))
                                  ]
                    ]
          h

    inject-Inserted :
        (opcode : Opcode)
        → is_plain m opcode ≡ true
        → Inserted (inject hash loc opcode) (accessed m opcode)
    unfolding inject trace accessed submit_address report_of text_eq
    inject-Inserted (load ptr size) h = (_, refl, (λ rest. refl, refl))
    inject-Inserted (store ptr size) h = (_, refl, (λ rest. refl, refl))
    inject-Inserted (call callee args size) h = call-Inserted callee args size h
    inject-Inserted _ h = ([], refl, (λ rest. refl, refl))

  -- What is inserted in front of an instruction, in the scope or not.
  selected-Inserted :
      (hash : Bytes → ℕ) (scope : Scope) (inst : Instruction)
      → is_plain m inst.opcode ≡ true
      → (items : List Item) × ((if in_scope scope inst.debug_loc
            then inject hash inst.debug_loc inst.opcode
            else some [])
          ≡ some items)
        × ((rest : List Item)
            → trace m (items ++ rest) ≡ events_of (report_in hash scope m inst) ++ trace m rest)
        × (not (is_empty_list items) ≡ is_report (report_in hash scope m inst))
  unfolding events_of
  selected-Inserted hash scope inst h = elim (Bool-cases (is_selected scope inst.debug_loc)) [
    | inl selected ↦
        let within = in_scope-is_selected scope inst.debug_loc ∙ selected in
        let (items, found, (traced, reports)) = inject-Inserted hash inst.debug_loc inst.opcode h in
        rw (selected, within) (items, found, traced, reports)
    | inr passed ↦
        let outside = in_scope-is_selected scope inst.debug_loc ∙ passed in
        rw (passed, outside) ([], refl, λ rest. refl, refl)
  ]

  instrument_block-expected :
      (hash : Bytes → ℕ) (scope : Scope) (block : List Instruction)
      → All (λ inst. is_plain m inst.opcode ≡ true) block
      → (items : List Item) × (instrument_block hash scope block
          ≡ some (items, reports_any hash scope m block))
        × (trace m items ≡ expected hash scope m block)
  unfolding instrument_block trace expected reports_any
  instrument_block-expected hash scope [] h = ([], refl, refl)
  instrument_block-expected hash scope (inst ∷ rest) h =
      let (items, found, traced, any_) = selected-Inserted hash scope inst h.0 in
      let (later, ok, ih) = instrument_block-expected hash scope rest h.1 in
      (
        items ++ (kept inst ∷ later),
        rw (instrument_block, found, ok, any_) refl,
        traced (kept inst ∷ later) ∙ rw ih refl,
      )

  -- The blocks of a clone, when the calls that are taken for buffer accesses are raw ones, of a descriptor
  -- that is seen to be made of a pointer and with a scalar offset of 0: the pass does not abort; a run
  -- through each of its blocks makes the same steps as before, and directly before each access of the scope
  -- sends one message with its address, kind, address space, size and source location, and no other
  -- message; and the pass says that it has changed the clone exactly if some access is in the scope. The
  -- address of a buffer access is its base with its two offsets.
  pub instrument_addresses-expected :
      (hash : Bytes → ℕ) (scope : Scope) (blocks : List (List Instruction))
      → All (All (λ inst. is_plain m inst.opcode ≡ true)) blocks
      → (instrumented : List (List Item)) × (instrument_addresses hash scope blocks
          ≡ some (instrumented, any (reports_any hash scope m) blocks))
        × (map (trace m) instrumented ≡ map (expected hash scope m) blocks)
  unfolding instrument_addresses
  instrument_addresses-expected hash scope [] h = ([], refl, refl)
  instrument_addresses-expected hash scope (block ∷ rest) h =
      let (items, ok, traced) = instrument_block-expected hash scope block h.0 in
      let (later, done, ih) = instrument_addresses-expected hash scope rest h.1 in
      (items ∷ later, rw (instrument_addresses, ok, done) refl, rw (traced, ih) refl)
