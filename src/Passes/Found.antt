-- ===== src/Passes/Found.antt =====
-- The instrumented module that a pass of src/instrumentation leaves, as the interceptor looks into it.
use omniprobe.Prelude.{
  ℕ, ◌≡◌, ap, Bool, true, false, List, [], ◌∷◌, ◌++◌, map, none, some, Bytes, codes, text_eq,
  text_eq_refl, get_elem?, zero, suc, any, All, arith, contains,
}
use omniprobe.Interceptor.Names.{
  augmented_name, get_instrumented_name, rfind, get_instrumented_name-augmented_name,
}
use omniprobe.Passes.{Instruction, Item, Function, IrModule, Toolchain}
use omniprobe.Passes.Linking.{validate_amdgpu_target, load_and_link_bitcode}
use omniprobe.Passes.Clones.{
  Instrument, Callee, keep_function, names, with_functions, run_on_module,
}
use omniprobe.Passes.Modules.{
  is_taken, is_taken-append, names-append, instrumented_clone, is_changed, KeepsNewNames,
  kernels_of, DistinctNames, HasNoClone, IsInstrumentable, run_on_module-instrumented_clone,
}

is_taken_right :
    (name : Bytes) (xs ys : List Bytes) → is_taken ys name ≡ true → is_taken (xs ++ ys) name ≡ true
is_taken_right name xs ys h = ground (arith, is_taken-append name xs ys, h)

clone-is_taken :
    (tools : Toolchain) (instrument : Instrument) (kernels : List (Function Instruction)) (i : ℕ)
    (kernel : Function Instruction)
    → get_elem? kernels i ≡ some kernel
    → is_taken
        (names (map (instrumented_clone tools instrument) kernels))
        (augmented_name kernel.name)
      ≡ true
clone-is_taken tools instrument [] i kernel found = cc
clone-is_taken tools instrument (k ∷ rest) zero kernel found =
    let same : k ≡ kernel = cc in
    ground (
      arith,
      ap
          (λ (f : Function Instruction).
            text_eq (augmented_name kernel.name) (augmented_name f.name))
          same,
      text_eq_refl (augmented_name kernel.name),
    )
clone-is_taken tools instrument (k ∷ rest) (suc i) kernel found =
    ground (arith, clone-is_taken tools instrument rest i kernel found)

-- For a module that the pass instruments without an abort, in which new functions keep free names, no
-- function has the name of a clone and the kernels have different names, and a kernel whose name has no closing parenthesis and no ".kd": the module
-- afterwards has a function of the name that getInstrumentedName looks up for the kernel.
pub run_on_module-get_instrumented_name :
    (tools : Toolchain) (instrument : Instrument) (callees : List Callee)
    (m linked : IrModule Instruction) (i : ℕ) (kernel : Function Instruction)
    → KeepsNewNames tools
    → validate_amdgpu_target m ≡ true
    → load_and_link_bitcode tools m ≡ (linked, true)
    → All (λ callee. is_taken (names linked.functions) callee.name ≡ true) callees
    → DistinctNames (kernels_of linked.functions)
    → All (HasNoClone linked.functions) (kernels_of linked.functions)
    → All (IsInstrumentable tools instrument) (kernels_of linked.functions)
    → get_elem? (kernels_of linked.functions) i ≡ some kernel
    → contains kernel.name b')' ≡ false
    → rfind (codes ".kd") kernel.name ≡ none
    → (result : IrModule Item × Bool) × (run_on_module tools instrument callees m ≡ some result)
      × (is_taken (names result.0.functions) (get_instrumented_name kernel.name) ≡ true)
run_on_module-get_instrumented_name tools instrument callees m linked i kernel keeps valid links
      known distinct free done found plain bare =
    let kernels = kernels_of linked.functions in
    let clones = map (instrumented_clone tools instrument) kernels in
    let kept_ones = map keep_function linked.functions in
    (
      (with_functions linked (kept_ones ++ clones), any (is_changed tools instrument) kernels),
      run_on_module-instrumented_clone tools instrument callees m linked keeps valid links known
          distinct free done,
      rw
          (
            get_instrumented_name-augmented_name kernel.name plain bare,
            names-append kept_ones clones,
          )
          (is_taken_right (augmented_name kernel.name) (names kept_ones) (names clones)
            (clone-is_taken tools instrument kernels i kernel found)),
    )
