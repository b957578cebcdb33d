-- ===== src/Interceptor/Packets.antt =====
-- The dispatch path of hsaInterceptor (src/interceptor.cc): addQueue, addKernel, fixupPacket, doPackets
-- and signalCompleted, as functions on the members that they share under `mutex_`. The HSA runtime,
-- comms_mgr and the kernel name demangler are parameters. What the code does to objects outside is a
-- list of effects, the latest first. The scan of code objects by kernelDB and the log are not modelled.
mod Members
unfoldable pub use Members.*
use omniprobe.Prelude.{
  ℕ, zero, suc, Bool, not, ◌&&◌, List, [], ◌∷◌, Option, none, some, Bytes, if◌then◌else◌, ◌==◌,
}
use omniprobe.Interceptor.KernArgs.{ArgDescriptor, fixup_kern_args}
use omniprobe.Interceptor.Dispatches.{Controller, can_dispatch}
use omniprobe.Interceptor.Cache.{
  Cache, Symbols, has_kernels, register_runtime_kernel, get_arg_size, get_arg_descriptor,
  find_alternative, find_instrumented_alternative,
}

-- SIGPOOL_INCREMENT.
abbrev pub sigpool_increment : ℕ
sigpool_increment = 8

unfoldable pub grow : Runtime → ℕ → State → State
grow rt zero st = st
grow rt (suc n) st =
    let sig = rt.create_signal st.created in
    grow rt n (record st { sig_pool_ = sig ∷ st.sig_pool_; created = sig ∷ st.created })

unfoldable pub replenish : Runtime → State → State
replenish rt st = elim (st.sig_pool_) [ [] ↦ grow rt sigpool_increment st | sig ∷ rest ↦ st ]

-- The call of fixupKernArgs with the comms object, which ends the program if that is a null pointer.
unfoldable pub with_comms :
    Runtime
    → ℕ
    → ArgDescriptor
    → ℕ
    → Packet
    → ℕ
    → State
    → Option ℕ
    → Attempt (Packet × (Option ℕ × State))
with_comms rt sig args alt_kernel_object packet new_kernargs st none = aborted
with_comms rt sig args alt_kernel_object packet new_kernargs st (some comms) =
    elim (fixup_kern_args (st.memory packet.kernarg_address) (rt.dev_rsrc_ptr comms) args) [
      | none ↦ aborted
      | some segment ↦ done (
        record packet {
          kernel_object = alt_kernel_object;
          kernarg_address = new_kernargs;
          private_segment_size = args.private_segment_size;
          group_segment_size = args.group_segment_size;
        },
        (
          some comms,
          record st {
            memory = put new_kernargs segment st.memory;
            pending_kernargs_ = put sig (some new_kernargs) st.pending_kernargs_;
          },
        ),
      )
    ]

-- An exception of a stage, or what follows.
abbrev pub unless_thrown : {A : Type 0} → Option Cache → State → Attempt A → Attempt A
unless_thrown none st more = more
unless_thrown (some cache) st more = thrown (record st { kernel_cache_ = cache })

abbrev pub or_abort : {A B : Type 0} → Option A → (A → Attempt B) → Attempt B
or_abort none more = aborted
or_abort (some a) more = more a

-- The part of fixupPacket that puts the arguments in place.
unfoldable pub instrument :
    Runtime
    → ℕ
    → ℕ
    → ℕ
    → KernelDescriptor
    → ℕ
    → Packet
    → State
    → Attempt (Packet × (Option ℕ × State))
unfolding with_comms
instrument rt agent sig dispatch_id kernel alt_kernel_object packet st =
    let asked =
      get_arg_descriptor rt.resolve agent kernel.name_ st.run_instrumented_ st.kernel_cache_ in
    let described : State = record st { kernel_cache_ = asked.1 } in
    unless_thrown (rt.throws st describing) st (
      or_abort (asked.0) (λ args. unless_thrown (rt.throws described preparing) described (
        with_comms rt sig args alt_kernel_object packet (rt.allocate st args.kernarg_length agent)
          described (rt.checkout_comms st agent kernel.name_ dispatch_id))))

-- The part of fixupPacket for a kernel that is known; the packet is left alone if it has no
-- alternative, or this dispatch is not to be instrumented.
unfoldable pub choose_kernel :
    Runtime → ℕ → ℕ → ℕ → KernelDescriptor → Packet → State → Attempt (Packet × (Option ℕ × State))
choose_kernel rt agent sig dispatch_id kernel packet st =
    let found : ℕ × Cache =
      if st.run_instrumented_
      then find_instrumented_alternative rt.symbols rt.agent_of kernel.symbol_ kernel.name_ agent
          st.kernel_cache_
      else find_alternative rt.symbols (rt.agent_of kernel.symbol_) kernel.name_ st.kernel_cache_ in
    let searched : State = record st { kernel_cache_ = found.1 } in
    let asked = can_dispatch (rt.draw st) found.0 st.dispatcher_ in
    let counted : State = record searched { dispatcher_ = asked.1 } in
    unless_thrown (rt.throws st searching) st (
      if found.0 == 0
      then done (packet, (none, searched))
      else if not st.run_instrumented_
      then done (packet, (none, searched))
      else if not asked.0
      then done (packet, (none, counted))
      else if get_arg_size found.0 found.1 == 0
      then aborted
      else instrument rt agent sig dispatch_id kernel found.0 packet counted)

unfoldable pub rewrite :
    Runtime → ℕ → ℕ → ℕ → Packet → State → Attempt (Packet × (Option ℕ × State))
rewrite rt agent sig dispatch_id packet st =
    if not (has_kernels st.kernel_cache_ agent)
    then done (packet, (none, st))
    else elim (st.kernel_objects_ packet.kernel_object) [
      | none ↦ done (packet, (none, st))
      | some kernel ↦ choose_kernel rt agent sig dispatch_id kernel packet st
    ]

abbrev pub no_kernel : KernelDescriptor
no_kernel = record { name_ = []; symbol_ = 0; agent_ = 0; kernarg_size_ = 0 }

abbrev pub or_no_kernel : Option KernelDescriptor → KernelDescriptor
or_no_kernel none = no_kernel
or_no_kernel (some kernel) = kernel

-- The signal is entered as pending. `kernel_objects_[...]` makes an entry where there is none.
unfoldable pub track : ℕ → ℕ → Packet → (Packet × (Option ℕ × State)) → Packet × State
track sig agent packet (dispatch, (comms, st)) =
    let kernel = or_no_kernel (st.kernel_objects_ packet.kernel_object) in
    let info : KernelInfo = record {
      signal_ = dispatch.completion_signal;
      name_ = kernel.name_;
      agent_ = agent;
      comms_obj_ = comms;
    } in
    (
      record dispatch { completion_signal = sig },
      record st {
        kernel_objects_ = put packet.kernel_object (some kernel) st.kernel_objects_;
        pending_signals_ = put sig (some info) st.pending_signals_;
      },
    )

-- The rest of fixupPacket, which an exception skips: its signal is then in neither table.
abbrev pub tracked :
    ℕ → ℕ → Packet → Attempt (Packet × (Option ℕ × State)) → Attempt (Packet × State)
tracked sig agent packet aborted = aborted
tracked sig agent packet (thrown left) = thrown (record left { lost = sig ∷ left.lost })
tracked sig agent packet (done result) = done (track sig agent packet result)

-- The pool has a signal after `replenish`; the first clause is not reached.
unfoldable pub fixup_taken : Runtime → ℕ → ℕ → Packet → State → List ℕ → Attempt (Packet × State)
unfolding track
fixup_taken rt agent dispatch_id packet st [] = aborted
fixup_taken rt agent dispatch_id packet st (sig ∷ rest) =
    tracked sig agent packet
      (rewrite rt agent sig dispatch_id packet (record st { sig_pool_ = rest }))

unfoldable pub fixup_packet : Runtime → Packet → ℕ → ℕ → State → Attempt (Packet × State)
fixup_packet rt packet queue dispatch_id st =
    let ready = replenish rt st in
    fixup_taken rt (st.queues_ queue) dispatch_id packet ready ready.sig_pool_

-- A packet of a queue: a kernel dispatch, or another one.
pub data AnyPacket : Type 0 where
  kernel_dispatch : Packet → AnyPacket
  other_packet : Bytes → AnyPacket

-- The loop of doPackets, which catches an exception of fixupPacket: the rest of the packets is then not
-- written. `none` is the end of the program.
unfoldable pub do_packets : Runtime → ℕ → List AnyPacket → State → Option State
do_packets rt queue [] st = some st
do_packets rt queue (other_packet bytes ∷ rest) st =
    do_packets rt queue rest (record st { effects = write_other bytes ∷ st.effects })
do_packets rt queue (kernel_dispatch packet ∷ rest) st =
    let id = suc st.dispatch_count_ in
    elim (fixup_packet rt packet queue id (record st { dispatch_count_ = id })) [
      | aborted ↦ none
      | thrown left ↦ some left
      | done (dispatch, next) ↦
          do_packets rt queue rest
            (record next { effects = write_dispatch dispatch ∷ next.effects })
    ]

unfoldable pub signal_completed : ℕ → State → State
signal_completed sig st = elim (st.pending_signals_ sig) [
  | none ↦ st
  | some ki ↦
      let subtracted : List Effect =
        if ki.signal_ == 0 then st.effects else subtract ki.signal_ ∷ st.effects in
      let stored = store_one sig ∷ subtracted in
      let freed : List Effect = elim (st.pending_kernargs_ sig) [
        | none ↦ stored
        | some buffer ↦ free_kernargs buffer ∷ stored
      ] in
      let returned : List Effect = elim (ki.comms_obj_) [
        | none ↦ freed
        | some comms ↦ checkin_comms ki.agent_ comms ∷ freed
      ] in
      record st {
        pending_signals_ = put sig none st.pending_signals_;
        pending_kernargs_ = put sig none st.pending_kernargs_;
        sig_pool_ = sig ∷ st.sig_pool_;
        effects = returned;
      }
]

unfoldable pub add_queue : ℕ → ℕ → State → State
add_queue queue agent st = record st { queues_ = put queue agent st.queues_ }

abbrev pub or_name : Bytes → Bytes → Bytes
or_name [] name = name
or_name (c ∷ s) name = c ∷ s

unfoldable pub add_kernel : Runtime → ℕ → Bytes → ℕ → ℕ → ℕ → State → State
add_kernel rt kernel_object name symbol agent kernarg_size st =
    let this_name = or_name (rt.demangle name) name in
    let kernel : KernelDescriptor = record {
      name_ = this_name;
      symbol_ = symbol;
      agent_ = agent;
      kernarg_size_ = kernarg_size;
    } in
    let known : State = record st {
      kernel_objects_ = put kernel_object (some kernel) st.kernel_objects_;
    } in
    elim (st.kernel_objects_ kernel_object) [
      | some registered ↦ st
      | none ↦
          if st.run_instrumented_ && not (rt.is_excluded_file kernel_object)
          then record known {
            kernel_cache_ =
                register_runtime_kernel this_name symbol kernel_object agent kernarg_size
                  st.kernel_cache_;
          }
          else known
    ]
