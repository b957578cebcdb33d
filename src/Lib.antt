-- ===== src/Lib.antt =====
-- Omniprobe instruments GPU kernels as they are compiled, swaps the instrumented kernels in at dispatch
-- time, and analyses the messages that they send. Paths are from the repository's root.
--
-- The compiler side. Scope.antt and its children model InstrumentationScope of
-- src/instrumentation/InstrumentationCommon.cpp: `parse_definitions` is parseDefinitions (with trimming,
-- splitting and strtoul in Scope/Parse and Scope/Numbers), `parse_file` is parseFile,
-- `instrumentation_scope` is the constructor, `matches` is matches. Environment variables and file
-- contents are arguments. Passes.antt holds what the three passes read of a module of LLVM IR: an
-- instruction has the operands, types and locations that the code asks LLVM for, and LLVM and the file
-- system are the fields of `Toolchain`. Passes/Linking is getBitcodePath, validateAMDGPUTarget and
-- loadAndLinkBitcode, Passes/Clones collectGPUKernels, cloneKernelWithExtraArg and the loop over the
-- kernels that each runOnModule has; Passes/Addresses, BlockStarts and Intervals are what
-- src/instrumentation/AMDGCNSubmitAddressMessages.cpp, AMDGCNSubmitBBStart.cpp and
-- AMDGCNSubmitBBInterval.cpp insert into the blocks. A failed assertion, or a read through a null pointer,
-- is `none`. Passes/Reported says what the messages are to report, and Passes/Messages, Modules, Found and Blocks
-- hold the proofs. The printed text and include/utils.h, whose helpers no pass calls, are not modelled.
--
-- The dispatch side. Interceptor/Packets.antt models the members of hsaInterceptor (src/interceptor.cc)
-- that the dispatch path shares, and fixupPacket, doPackets, signalCompleted, addQueue and addKernel.
-- `fixup_packet` is fixupPacket: `replenish` grows the signal pool, `rewrite`, `choose_kernel` and
-- `instrument` are its nested branches, `track` enters the signal as pending. An abort, a failed
-- assertion or a call through a null pointer is `aborted`; an exception, which doPackets catches, is `thrown`,
-- and may come from the search, the description of the arguments, or the allocation with the scan and the
-- checkout of the comms object (`Stage`); its signal is then in `lost`, which is no member but the trace of
-- the code's local variable. The HSA runtime, comms_mgr and the demangler are the fields of `Runtime`; what the
-- code does outside is a list of effects. All of it runs under one mutex, so interleavings are
-- sequences of events (Interceptor/Pool). It uses Interceptor/Names (getInstrumentedName and the clipping
-- functions of src/utils.cc), Interceptor/KernArgs (computeKernargData and fixupKernArgs, segments being
-- lists of bytes), Interceptor/Dispatches (getLogDurConfig and dispatchController) and Interceptor/Cache
-- (the lookups of coCache). Interceptor/Loading is addFile and setLocation of coCache, Interceptor/Exclusion
-- isKernelFromExcludedFile, Interceptor/Resolution resolveRuntimeArgDescriptors; the HSA loader,
-- kernelDB and comgr are their parameters. Interceptor/Runner is the inner loop of signal_runner with
-- getPendingSignals: its rounds run while the other threads rest, and which waits return is a parameter.
-- Interceptor/Watcher is cache_watcher with addCodeObject: an event is what inotify gives of it, and inotify and
-- the file system are parameters.
-- Interceptor/Lifetime is getInstance, the saving, replacing and restoring of the API table's entries,
-- OnSubmitPackets, the destructor and the functions that the runtime and the exit of the process call; the
-- answers of hasPendingSignals are a parameter. Interceptor/Discovery is hsa_executable_symbol_get_info and
-- hsa_queue_create, with what the runtime's own functions answer as a parameter. Interceptor/Startup is the
-- constructor's part that loads the library filter and the files of each GPU.
-- Interceptor/Segments, Losses, Lived, Waits, Allowed, Signals, Completions, Returns, Filled, Described, Entries, Watched and Arrivals hold proofs, as do
-- CommsManager/Agents, Config/Decoding, Config/Signed, Logger/Lines and TimeInterval/Elapsed.
-- CommsManager.antt models comms_mgr (src/comms_mgr.cc) and handlerManager (src/utils.cc), Allocation.antt
-- KernArgAllocator (src/utils.cc) and hsa_mem_mgr (src/hsa_mem_mgr.cc), Fields.antt the string helpers of
-- inc/utils.h, and Config.antt ConfigReceiver (src/config_receiver.cc), with the JSON library, OpenSSL and the
-- socket as the fields of `Libraries`.
-- LibraryFilter.antt, LibraryFilter/Arrays and LibraryFilter/Dependencies model LibraryFilter of
-- src/library_filter.cc; the file system, glob(3), libelf and std::regex are parameters.
--
-- The analysis side. Comms.antt holds what the handlers read of dh_comms and kernelDB, which are not in
-- the repository. MemoryAnalysis models memory_analysis_handler_t (src/memory_analysis_handler.cc):
-- Conflict is conflict_set and the counting of bank conflicts, CacheLines the cache line loop, Accesses
-- the maps of accesses per source location, Dwarf get_dwarf_info, Handler the handler's functions.
-- BasicBlocks.antt models basic_block_analysis (src/basic_block_analysis.cc), and BasicBlocks/Reports the
-- reading of file lines, Counts the instruction counts of its report, and Resources the text of its compute
-- resources. The padding bytes that a wave's key is compared with are a parameter of handle. Numbers of type double are not modelled.
-- Heatmap.antt models memory_heatmap_t, TimeInterval.antt time_interval_handler_t, and TimeInterval/Blocks
-- time_interval_handler_wrapper. Logger.antt models message_logger_t (src/message_logger.cc). MemoryAnalysis/SourceLines
-- and Reports model show_line and the reports of the memory analysis as text (the proofs are in Printed);
-- MemoryAnalysis/JsonReport is getCodeContext and report_json, up to the text that is handed
-- to the stream, which the code never closes. The heatmap's
-- report is modelled as rows; the other reports, the verbose output and the opening of log files are not. Json.antt models JSONHelper of src/json_helpers.cc, and Json/Members its objects as members.
--
-- Numbers are natural numbers; a sum that the code keeps in 64, 32 or 16 bits is reduced where it is
-- stored, and a theorem names the bound where it needs that nothing wraps. The loops run over lists or
-- texts, the growth of the pool over its fixed increment, countSetBits over the 64 bits of a mask. Four
-- definitions have fuel: the rounds of the signal runner, the loop that replaces tabs and the waits of a
-- shutdown, for which enough is shown in Interceptor/Runner, MemoryAnalysis/SourceLines and
-- Interceptor/Waits, and the digits of a number, which
-- are not more than its value and one.
-- A std::map is an association list in key order (Prelude/Maps) or, for the interceptor's tables, a function;
-- a std::set is an increasing list (Prelude/Sets and Prelude/TextSets). The starting and stopping of
-- threads, the log of the interceptor and the scan of code objects by kernelDB are not modelled:
-- they are calls of code outside.
mod Prelude
pub mod Comms
pub mod MemoryAnalysis
pub mod Logger
pub mod CommsManager
pub mod Config
pub mod Fields
pub mod Allocation
pub mod Heatmap
pub mod TimeInterval
pub mod Passes
pub mod Scope
pub mod Interceptor
pub mod LibraryFilter
mod Tests
pub mod Json
pub mod BasicBlocks
