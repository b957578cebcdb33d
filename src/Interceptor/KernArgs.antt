-- ===== src/Interceptor/KernArgs.antt =====
-- The kernel argument segment of an instrumented clone: roundArgsLength and
-- KernelArgHelper::computeKernargData of src/utils.cc, which describe it, and
-- hsaInterceptor::fixupKernArgs of src/interceptor.cc, which fills it. The metadata that comgr returns
-- is data: its strings are names, and its numbers have been read.
use omniprobe.Prelude.{
  ℕ, suc, ◌+◌, ◌-◌, ◌*◌, ◌/◌, ◌%◌, ◌^◌, ◌≡◌, refl, List, [], ◌∷◌, ◌++◌, Option, none, some, Bytes,
  codes, starts_with, if◌then◌else◌, ◌==◌, ltb, arith, length, take, drop, replicate, u64,
}
use Prim.Native.Nat.{min}
use omniprobe.Prelude.Maps.{text_key, assign}

-- ARG_ALIGN, and sizeof(void *).
abbrev pub arg_align : ℕ
arg_align = 8

abbrev pub pointer_size : ℕ
pointer_size = 8

-- arg_descriptor_t.
pub record ArgDescriptor : Type 0 where
  pub explicit_args_length : ℕ
  pub explicit_args_count : ℕ
  pub hidden_args_length : ℕ
  pub kernarg_length : ℕ
  pub private_segment_size : ℕ
  pub group_segment_size : ℕ
  pub clone_hidden_args_length : ℕ

-- One map of the list ".args".
pub record Parameter : Type 0 where
  pub size : ℕ
  pub value_kind : Bytes
  pub offset : ℕ

-- One map of the list "amdhsa.kernels": its demangled symbol, its sizes, and ".args" if that is a list.
pub record KernelMetadata : Type 0 where
  pub symbol : Bytes
  pub kernarg_segment_size : ℕ
  pub private_segment_fixed_size : ℕ
  pub group_segment_fixed_size : ℕ
  pub args : List Parameter

unfoldable pub round_args_length : ℕ → ℕ
round_args_length number = (u64 (number + (arg_align - 1)) / arg_align) * arg_align

-- One turn of the loop over the arguments.
unfoldable pub add_parameter : ArgDescriptor → Parameter → ArgDescriptor
unfolding starts_with
add_parameter desc parm =
    if starts_with (codes "hidden_") parm.value_kind
    then record desc { hidden_args_length = u64 (parm.offset + parm.size) }
    else record desc {
      explicit_args_count = suc desc.explicit_args_count;
      explicit_args_length = u64 (parm.offset + parm.size);
    }

unfoldable pub add_parameters : ArgDescriptor → List Parameter → ArgDescriptor
unfolding add_parameter
add_parameters desc [] = desc
add_parameters desc (parm ∷ rest) = add_parameters (add_parameter desc parm) rest

unfoldable pub compute_descriptor : KernelMetadata → ArgDescriptor
unfolding add_parameters round_args_length
compute_descriptor kernel =
    let zeroed : ArgDescriptor = record {
      explicit_args_length = 0;
      explicit_args_count = 0;
      hidden_args_length = 0;
      kernarg_length = kernel.kernarg_segment_size;
      private_segment_size = kernel.private_segment_fixed_size % 2 ^ 32;
      group_segment_size = kernel.group_segment_fixed_size % 2 ^ 32;
      clone_hidden_args_length = 0;
    } in
    let desc = add_parameters zeroed kernel.args in
    let explicit = min (round_args_length desc.explicit_args_length) desc.kernarg_length in
    record desc {
      explicit_args_length = explicit;
      hidden_args_length = desc.kernarg_length - explicit;
    }

-- The loop over the kernels; it fills `kernels_`.
unfoldable pub compute_kernarg_data :
    List (Bytes × ArgDescriptor) → List KernelMetadata → List (Bytes × ArgDescriptor)
unfolding compute_descriptor
compute_kernarg_data kernels [] = kernels
compute_kernarg_data kernels (kernel ∷ rest) =
    compute_kernarg_data (assign kernel.symbol (compute_descriptor kernel) kernels) rest

-- memcpy(&dst[at], src, length src).
unfoldable pub write_at : ℕ → Bytes → Bytes → Bytes
write_at at src dst = take at dst ++ src ++ drop (at + length src) dst

-- `fixupKernArgs`: what is left in `dst`, for a segment `src` of the original and the bytes of the
-- pointer; `none` is a failed assertion, or a length that wraps around below the pointer's size.
unfoldable pub fixup_kern_args : Bytes → Bytes → ArgDescriptor → Option Bytes
fixup_kern_args src comms desc =
    let cleared = replicate desc.kernarg_length 0 in
    let explicit = desc.explicit_args_length - pointer_size in
    let copied = write_at 0 (take explicit src) cleared in
    let hidden = take desc.clone_hidden_args_length (drop explicit src) in
    let with_hidden = write_at desc.explicit_args_length hidden copied in
    if ltb desc.explicit_args_length pointer_size
    then none
    else if desc.clone_hidden_args_length == 0
    then some (write_at explicit comms copied)
    else if ltb (desc.kernarg_length - desc.explicit_args_length) desc.clone_hidden_args_length
    then none
    else some (write_at explicit comms with_hidden)

add_parameters-kernarg_length :
    (desc : ArgDescriptor) (args : List Parameter)
    → (add_parameters desc args).kernarg_length ≡ desc.kernarg_length
unfolding add_parameters
add_parameters-kernarg_length desc [] = refl
add_parameters-kernarg_length desc (parm ∷ rest) =
    ground (arith, add_parameters-kernarg_length (add_parameter desc parm) rest)

-- The explicit arguments and the hidden ones make up the segment, whatever the metadata says.
compute_descriptor-covers :
    (kernel : KernelMetadata)
    → (compute_descriptor kernel).explicit_args_length
        + (compute_descriptor kernel).hidden_args_length
      ≡ kernel.kernarg_segment_size
unfolding compute_descriptor
compute_descriptor-covers kernel = ground (
  arith,
  add_parameters-kernarg_length
      (record {
        explicit_args_length = 0;
        explicit_args_count = 0;
        hidden_args_length = 0;
        kernarg_length = kernel.kernarg_segment_size;
        private_segment_size = kernel.private_segment_fixed_size % 2 ^ 32;
        group_segment_size = kernel.group_segment_fixed_size % 2 ^ 32;
        clone_hidden_args_length = 0;
      })
      kernel.args,
)
