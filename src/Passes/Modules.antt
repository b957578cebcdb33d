-- ===== src/Passes/Modules.antt =====
-- What runOnModule of a pass of src/instrumentation makes of a module.
use mathlib.Core.List.{append_assoc, append-nil, append_cancel_left, append_cancel_right}
use omniprobe.Prelude.{
  ◌≡◌, refl, sym, ap, ◌∙◌, Bool, true, false, ◌||◌, ◌&&◌, not, List, [], ◌∷◌, ◌++◌, map, Option,
  none, some, Bytes, codes, text_eq, text_eq_iff, if◌then◌else◌, any, All, arith, Bool-cases,
  Option-cases, inl, inr,
}
use omniprobe.Interceptor.Names.{augmented_name}
use omniprobe.Passes.{Instruction, Item, pointer, Function, IrModule, Toolchain}
use omniprobe.Passes.Linking.{validate_amdgpu_target, load_and_link_bitcode}
use omniprobe.Passes.Clones.{
  Instrument, Callee, collect_gpu_kernels, keep_function, names, clone_kernel_with_extra_arg,
  declare, run_kernels, with_functions, finish, run_on_module,
}

abbrev pub is_taken : List Bytes → Bytes → Bool
is_taken taken name = any (text_eq name) taken

-- A new function gets the name that is asked for if no function has it.
abbrev pub KeepsNewNames : Toolchain → Type 0
KeepsNewNames tools =
    (taken : List Bytes) (name : Bytes)
    → is_taken taken name ≡ false
    → tools.unique_name taken name ≡ name

abbrev blocks_of : Option (List (List Item) × Bool) → List (List Item)
blocks_of none = []
blocks_of (some (blocks, inserted)) = blocks

abbrev inserted_of : Option (List (List Item) × Bool) → Bool
inserted_of none = false
inserted_of (some (blocks, inserted)) = inserted

abbrev is_done : Option (List (List Item) × Bool) → Bool
is_done none = false
is_done (some result) = true

pub names-append :
    {I : Type 0} (fs gs : List (Function I)) → names (fs ++ gs) ≡ names fs ++ names gs
names-append [] gs = refl
names-append (f ∷ fs) gs = ap (◌∷◌ f.name) (names-append fs gs)

pub is_taken-append :
    (name : Bytes) (xs ys : List Bytes)
    → is_taken (xs ++ ys) name ≡ is_taken xs name || is_taken ys name
is_taken-append name [] ys = refl
is_taken-append name (x ∷ xs) ys = ground (arith, is_taken-append name xs ys)

still_taken :
    (name : Bytes) (functions added : List (Function Item))
    → is_taken (names functions) name ≡ true
    → is_taken (names (functions ++ added)) name ≡ true
still_taken name functions added h =
    rw (names-append functions added, is_taken-append name (names functions) (names added), h) refl

callees_still_taken :
    (callees : List Callee) (functions added : List (Function Item))
    → All (λ callee. is_taken (names functions) callee.name ≡ true) callees
    → All (λ callee. is_taken (names (functions ++ added)) callee.name ≡ true) callees
callees_still_taken [] functions added h = tt
callees_still_taken (callee ∷ rest) functions added h =
    (still_taken callee.name functions added h.0, callees_still_taken rest functions added h.1)

declare_known :
    (callees : List Callee) (functions : List (Function Item))
    → All (λ callee. is_taken (names functions) callee.name ≡ true) callees
    → declare callees functions ≡ functions
unfolding declare
declare_known [] functions h = refl
declare_known (callee ∷ rest) functions h = rw (declare, h.0) (declare_known rest functions h.1)

-- The clone of a kernel with the blocks it has in the end: the compiler's name, one pointer more; all
-- else is the kernel's.
abbrev pub clone_with : Function Instruction → List (List Item) → Function Item
clone_with kernel blocks = record {
  name = augmented_name kernel.name;
  params = kernel.params ++ record { name = []; type = pointer 0 } ∷ [];
  return_type = kernel.return_type;
  is_var_arg = kernel.is_var_arg;
  linkage = kernel.linkage;
  address_space = kernel.address_space;
  is_intrinsic = false;
  is_kernel = kernel.is_kernel;
  target_cpu = kernel.target_cpu;
  attributes = kernel.attributes;
  blocks = blocks;
}

if_same : {A : Type 0} (b : Bool) (x y : A) → x ≡ y → (if b then x else y) ≡ y
if_same true x y h = h
if_same false x y h = refl

or_assoc : (a b c : Bool) → (a || b) || c ≡ a || (b || c)
or_assoc a b c = ground arith

module _ (tools : Toolchain) (instrument : Instrument) where
  abbrev pub instrumented_clone : Function Instruction → Function Item
  instrumented_clone kernel =
      clone_with kernel (blocks_of (instrument (tools.clone_body kernel.blocks)))

  abbrev pub is_changed : Function Instruction → Bool
  is_changed kernel = inserted_of (instrument (tools.clone_body kernel.blocks))

  abbrev pub IsInstrumentable : Function Instruction → Type 0
  IsInstrumentable kernel = is_done (instrument (tools.clone_body kernel.blocks)) ≡ true

  -- No name of a clone is taken when the clone is made.
  abbrev Fresh : List (Function Instruction) → List Bytes → Type 0
  Fresh [] taken = Unit
  Fresh (kernel ∷ rest) taken =
      (is_taken taken (augmented_name kernel.name) ≡ false)
      × Fresh rest (taken ++ augmented_name kernel.name ∷ [])

  run_kernels_step :
      (callees : List Callee) (kernel : Function Instruction) (rest : List (Function Instruction))
      (functions : List (Function Item)) (modified : Bool)
      → KeepsNewNames tools
      → All (λ callee. is_taken (names functions) callee.name ≡ true) callees
      → IsInstrumentable kernel
      → is_taken (names functions) (augmented_name kernel.name) ≡ false
      → run_kernels tools instrument callees (kernel ∷ rest) functions modified
        ≡ run_kernels tools instrument callees rest
            (functions ++ instrumented_clone kernel ∷ [])
            (modified || is_changed kernel)
  unfolding run_kernels clone_kernel_with_extra_arg
  run_kernels_step callees kernel rest functions modified keeps known done fresh =
      let named = keeps (names functions) (augmented_name kernel.name) fresh in
      elim (Option-cases (instrument (tools.clone_body kernel.blocks))) [
        | inl aborts ↦ cc
        | inr ((blocks, inserted), ok) ↦
            let added : List (Function Item) = clone_with kernel blocks ∷ [] in
            let same =
              declare_known callees (functions ++ added)
                (callees_still_taken callees functions added known) in
            rw (run_kernels, ok, named)
              (ap (λ fs. run_kernels tools instrument callees rest fs (modified || inserted))
                (if_same inserted _ (functions ++ added) same))
      ]

  run_kernels-instrumented_clone :
      (callees : List Callee) (kernels : List (Function Instruction))
      (functions : List (Function Item)) (modified : Bool)
      → KeepsNewNames tools
      → All (λ callee. is_taken (names functions) callee.name ≡ true) callees
      → All IsInstrumentable kernels
      → Fresh kernels (names functions)
      → run_kernels tools instrument callees kernels functions modified
        ≡ some (functions ++ map instrumented_clone kernels, modified || any is_changed kernels)
  unfolding run_kernels
  run_kernels-instrumented_clone callees [] functions modified keeps known done fresh =
      ground (arith, append-nil functions)
  run_kernels-instrumented_clone callees (kernel ∷ rest) functions modified keeps known done fresh =
      let added : List (Function Item) = instrumented_clone kernel ∷ [] in
      let later =
        run_kernels-instrumented_clone callees rest (functions ++ added)
          (modified || is_changed kernel) keeps (callees_still_taken callees functions added known)
          done.1 (rw (names-append functions added) fresh.1) in
      run_kernels_step callees kernel rest functions modified keeps known done.0 fresh.0
      ∙ (later
          ∙ rw
              (
                append_assoc functions added (map instrumented_clone rest),
                or_assoc modified (is_changed kernel) (any is_changed rest),
              )
              refl)

-- The kernels of a module: the functions with the calling convention of one that are no intrinsics.
abbrev pub kernels_of : List (Function Instruction) → List (Function Instruction)
kernels_of [] = []
kernels_of (f ∷ rest) =
    (if f.is_kernel && not f.is_intrinsic then f ∷ [] else []) ++ kernels_of rest

collect_gpu_kernels-kernels_of :
    (functions : List (Function Instruction)) → collect_gpu_kernels functions ≡ kernels_of functions
unfolding collect_gpu_kernels
collect_gpu_kernels-kernels_of [] = refl
collect_gpu_kernels-kernels_of (f ∷ rest) = ground (arith, collect_gpu_kernels-kernels_of rest)

-- The names of the kernels are different.
abbrev pub DistinctNames : List (Function Instruction) → Type 0
DistinctNames [] = Unit
DistinctNames (f ∷ rest) = (is_taken (names rest) f.name ≡ false) × DistinctNames rest

-- No function has the name of the clone.
abbrev pub HasNoClone : List (Function Instruction) → Function Instruction → Type 0
HasNoClone functions kernel = is_taken (names functions) (augmented_name kernel.name) ≡ false

text_eq-augmented_name :
    (a b : Bytes) → text_eq a b ≡ false → text_eq (augmented_name a) (augmented_name b) ≡ false
unfolding augmented_name
text_eq-augmented_name a b h = elim (Bool-cases (text_eq (augmented_name a) (augmented_name b))) [
  | inl same ↦
      let equal = (text_eq_iff (augmented_name a) (augmented_name b)).0 same in
      let behind =
        append_cancel_left (codes "__amd_crk_") (a ++ codes "Pv") (b ++ codes "Pv") equal in
      ground (arith, (text_eq_iff a b).1 (append_cancel_right a b (codes "Pv") behind))
  | inr other_ ↦ other_
]

text_eq_swap : (a b : Bytes) → text_eq a b ≡ false → text_eq b a ≡ false
text_eq_swap a b h = elim (Bool-cases (text_eq b a)) [
  | inl same ↦ ground (arith, (text_eq_iff a b).1 (sym ((text_eq_iff b a).0 same)))
  | inr other_ ↦ other_
]

-- What is free of clones is so after the clone of another kernel.
HasNoClone-later :
    (taken : List Bytes) (name : Bytes) (kernels : List (Function Instruction))
    → is_taken (names kernels) name ≡ false
    → All (λ kernel. is_taken taken (augmented_name kernel.name) ≡ false) kernels
    → All
        (λ kernel.
          is_taken (taken ++ augmented_name name ∷ []) (augmented_name kernel.name) ≡ false)
        kernels
HasNoClone-later taken name [] other_ free = tt
HasNoClone-later taken name (kernel ∷ rest) other_ free = (
  rw (is_taken-append (augmented_name kernel.name) taken (augmented_name name ∷ []), free.0)
      (ground (
        arith,
        other_,
        text_eq-augmented_name kernel.name name
            (text_eq_swap name kernel.name (ground (arith, other_))),
      )),
  HasNoClone-later taken name rest (ground (arith, other_)) free.1,
)

Fresh-DistinctNames :
    (tools : Toolchain) (instrument : Instrument) (taken : List Bytes)
    (kernels : List (Function Instruction))
    → DistinctNames kernels
    → All (λ kernel. is_taken taken (augmented_name kernel.name) ≡ false) kernels
    → Fresh tools instrument kernels taken
Fresh-DistinctNames tools instrument taken [] distinct free = tt
Fresh-DistinctNames tools instrument taken (kernel ∷ rest) distinct free = (
  free.0,
  Fresh-DistinctNames tools instrument (taken ++ augmented_name kernel.name ∷ []) rest distinct.1
      (HasNoClone-later taken kernel.name rest distinct.0 free.1),
)

names-keep_function :
    (functions : List (Function Instruction))
    → names (map keep_function functions) ≡ names functions
names-keep_function [] = refl
names-keep_function (f ∷ rest) = ap (◌∷◌ f.name) (names-keep_function rest)

-- For a module of the AMDGPU target into which the device module is linked, which has the called
-- functions, where a new function keeps a name that is free, no function has the name of a clone, the kernels
-- have different names, and the instrumentation of none aborts: the functions of the linked module are as they were, behind them stands one clone for each kernel,
-- in order, with the compiler's name, one more pointer as its last parameter and the instrumented
-- blocks, and nothing else is added; and the
-- pass says that it has changed the module exactly if something
-- was inserted into some clone.
pub run_on_module-instrumented_clone :
    (tools : Toolchain) (instrument : Instrument) (callees : List Callee)
    (m linked : IrModule Instruction)
    → KeepsNewNames tools
    → validate_amdgpu_target m ≡ true
    → load_and_link_bitcode tools m ≡ (linked, true)
    → All (λ callee. is_taken (names linked.functions) callee.name ≡ true) callees
    → DistinctNames (kernels_of linked.functions)
    → All (HasNoClone linked.functions) (kernels_of linked.functions)
    → All (IsInstrumentable tools instrument) (kernels_of linked.functions)
    → run_on_module tools instrument callees m
      ≡ some (
        with_functions linked (
            map keep_function linked.functions
            ++ map (instrumented_clone tools instrument) (kernels_of linked.functions)),
        any (is_changed tools instrument) (kernels_of linked.functions),
      )
unfolding run_on_module
run_on_module-instrumented_clone tools instrument callees m linked keeps valid links known distinct
      free done =
    let kernels = kernels_of linked.functions in
    let same = names-keep_function linked.functions in
    let fresh =
      Fresh-DistinctNames tools instrument (names linked.functions) kernels distinct free in
    rw (valid, links, collect_gpu_kernels-kernels_of linked.functions)
      (ap (finish linked) (
        run_kernels-instrumented_clone tools instrument callees kernels
          (map keep_function linked.functions) false keeps (rw same known) done (rw same fresh)))
