-- ===== src/Interceptor/Packets/Members.antt =====
-- The members of hsaInterceptor (src/interceptor.cc, inc/interceptor.h) that the dispatch path uses, and the code outside.
use omniprobe.Prelude.{ℕ, Bool, List, Option, Bytes, if◌then◌else◌, ◌==◌}
use omniprobe.Interceptor.Dispatches.{Controller}
use omniprobe.Interceptor.Cache.{Cache, Symbols}

-- kernel_info_t; a signal of handle 0 is none, and so is a null pointer.
pub record KernelInfo : Type 0 where
  pub signal_ : ℕ
  pub name_ : Bytes
  pub agent_ : ℕ
  pub comms_obj_ : Option ℕ

-- ld_kernel_descriptor_t.
pub record KernelDescriptor : Type 0 where
  pub name_ : Bytes
  pub symbol_ : ℕ
  pub agent_ : ℕ
  pub kernarg_size_ : ℕ

-- The fields of hsa_kernel_dispatch_packet_t that are read or written; `others` are the rest.
pub record Packet : Type 0 where
  pub kernel_object : ℕ
  pub kernarg_address : ℕ
  pub private_segment_size : ℕ
  pub group_segment_size : ℕ
  pub completion_signal : ℕ
  pub others : Bytes

-- What the code asks of objects outside.
pub data Effect : Type 0 where
  subtract store_one free_kernargs : ℕ → Effect
  checkin_comms : ℕ → ℕ → Effect
  write_dispatch : Packet → Effect
  write_other : Bytes → Effect

-- A map from numbers.
abbrev pub Table {ℓ} : Type ℓ → Type ℓ
Table V = ℕ → Option V

abbrev pub put {ℓ} : {A : Type ℓ} → ℕ → A → (ℕ → A) → ℕ → A
put k v m i = if i == k then v else m i

-- The members of hsaInterceptor. The back of `sig_pool_` is the head of the list; `created` are the
-- signals that the runtime has made for it, `memory` holds the kernarg
-- segments, and `lost` are the signals that were in the local variable of a fixupPacket that threw.
pub record State : Type 0 where
  pub sig_pool_ : List ℕ
  pub created : List ℕ
  pub pending_signals_ : Table KernelInfo
  pub pending_kernargs_ : Table ℕ
  pub kernel_objects_ : Table KernelDescriptor
  pub queues_ : ℕ → ℕ
  pub kernel_cache_ : Cache
  pub run_instrumented_ : Bool
  pub dispatcher_ : Controller
  pub dispatch_count_ : ℕ
  pub memory : ℕ → Bytes
  pub effects : List Effect
  pub lost : List ℕ

-- Where the code that fixupPacket calls may throw: the search for an alternative, the description of its
-- arguments, and the allocation, the scan by kernelDB and the checkout of the comms object.
pub data Stage : Type 0 where
  searching describing preparing : Stage

-- The end of a call: the program is ended, an exception with the members it leaves, or a value.
pub data Attempt (A : Type 0) : Type 0 where
  aborted : Attempt A
  thrown : State → Attempt A
  done : A → Attempt A

-- The code outside. `throws` gives the cache that an exception leaves, and a checkout may give a null
-- pointer. A new signal, a new segment, a draw and a comms object may depend on what
-- happened before.
pub record Runtime : Type 0 where
  pub create_signal : List ℕ → ℕ
  pub allocate : State → ℕ → ℕ → ℕ
  pub symbols : Symbols
  pub agent_of : ℕ → ℕ
  pub draw : State → Bool
  pub resolve : ℕ → Cache → Bool × Cache
  pub checkout_comms : State → ℕ → Bytes → ℕ → Option ℕ
  pub throws : State → Stage → Option Cache
  pub dev_rsrc_ptr : ℕ → Bytes
  pub demangle : Bytes → Bytes
  pub is_excluded_file : ℕ → Bool
