-- ===== src/Lib.antt =====
-- libload: a library that loads executable images of the PE format into a process, and generates
-- code for it. This library models its core, each definition after the C++ code of the same name.
--
-- The parts and how they interact:
--
-- - Common: tests, lists, words and results that all parts share. A std::size_t or a pointer is a
--   number below 2 ^ 64, and `+64` and `-64` wrap around; a function that may throw gives a `Result`,
--   and one with side effects is an `Eff`, a function from a state to a result and a state. What the
--   code leaves undefined is the error `undefined`, and an exception that leaves a destructor is
--   `terminate`. Frames has the rules for code that leaves a part of the state as it is.
--
-- - Memory: include/load/memory/memory_manager.hpp and src/memory_block.hpp. Manager has the class
--   MemoryManager as a record of operations, and `CopiesBytes`, what clients rely on: the two copies
--   move the bytes of one memory. Block has MemoryBlock with its read, write, destructor, move and
--   slice; Endian has read_le_value_from, write_le_value_into and modify_le_value_at; Scope has the
--   destructors of local blocks and copy_into_local_memory. Access, Slice, Ownership, Identity and
--   Endian have the theorems. Owners follows the blocks of a program over its run, as a step relation
--   of allocations, moves, releases and destructors, with its theorems in Owners/Balance. Tracks, Owns and Quiet follow the allocations of a
--   manager over nested scopes. Flat is a memory that fills `CopiesBytes`, Paged says which
--   addresses of one are committed, and Ledger is a list of live allocations that fills `Tracks` and
--   `Counts`.
--
-- - Codegen: src/code_chunk.hpp and .cpp in Chunk, src/arch/x64/code_generator.cpp in Imm and X64.
--   Isa is a specification: the decoding of the instructions that are used, and a machine that runs
--   them. The encoders are compared with it in Encoding, Decoding, Parameters, Calls, Syscall,
--   Relative and Frame (the function of test/test_codegenerator.cpp); Emit, Size and Sink compare
--   what a chunk writes into a block with the log of its bytes. The chunks write through the sink
--   into the blocks of Memory. Generator has the interfaces of include/load/codegen with the native
--   generator behind them, and Invoke the function of test/test_codegenerator.cpp that puts a chunk into
--   memory of its own and calls it.
--
-- - Module: include/load/module in Provider, with ModuleCache of src/module_provider.cpp and
--   make_module_provider of src/module_provider.hpp; Entries is the map of names, Cache and
--   Coherence the theorems. Forwarder has parse_pe_forwarder_string of src/pe/load_module.cpp,
--   Symbols find_symbol of src/pe/module.hpp, Forwarding its theorem for one forward. Linking ties
--   modules together whose exports are forwarded to one another. A std::shared_ptr is a handle,
--   `none` where it is null.
--
-- - Pe: src/pe/image.hpp. Format has the views that the library peplus gives, as records; Sections
--   the copying of headers and sections, Relocation the base relocations, Imports the import table,
--   Permissions the page protections (with src/platform/windows/memory_access.hpp), Load the whole
--   of load_pe_image, which uses the managers and blocks of Memory and the providers of Module.
--   Mapping, PastEnd, Rebase, Neutral, Bound, Bindings, Protection and Release have the theorems on the
--   steps; Agreement compares the two ways to copy an image, and Pages the memory that is written
--   with what is committed. Loaded follows load_pe_image as a whole, on memory that is directly
--   addressable and, for images without relocations, on memory that is not; Settled has what the
--   view of the image shows on the way, and Whole the copying followed by the rest. Quiet and Balance follow its allocations. Process has the exception table, the TLS
--   callbacks and the entry point of a DLL; LoadModule has load_pe_module of
--   src/pe/load_module.cpp, the constructor, move and destructor of OwnedPEModule of
--   src/pe/module.hpp and load_module of src/load_module.cpp; Events, Owner and Life have their
--   theorems. Exports has the methods of a loaded module that look up a symbol; Found follows a
--   file without imports from load_module to the symbols of the module, with Contents for its
--   sections.
--
-- - Platform: Win32 has the calls of Windows as records, a parameter; ProcessMemory the memory
--   managers of src/platform/windows/current_process.cpp and local_process.cpp, SystemModules the
--   modules of system_module.cpp, Processes open_process, LocalProcess and the exception tables,
--   Handles the methods of both kinds of processes and the move of a LocalProcess, MappedFile
--   src/mapped_file.cpp. MadeFor, Handles and Rights have the theorems on processes, Commit the one
--   on the pages of a local copy, References the one on system modules. Managers shows that the
--   memory of the current process fills the interface that the theorems on blocks rely on.
--
-- Parameters. Third-party code is an argument: the memory manager of a process with `CopiesBytes`
-- (Memory/Manager), `Protects` (Codegen/Invoke), `Tracks` (Memory/Tracks), `Counts` (Memory/Owners)
-- and `FillsRanges` (Pe/Mapping), the views of peplus with `ReadsFile` (Pe/Agreement),
-- `CommitsPages` (Pe/Pages) and `ReadsQuietly` (Pe/Quiet), the provider of modules with
-- `AnswersQuietly` (Pe/Quiet), the calls of Windows with `ChecksRights` (Platform/Rights),
-- `CountsReferences` (Platform/References) and `PointersAct` (Platform/Managers), the code of a DLL
-- with `RunsQuietly` (Pe/Life), Boost's mapping of a file, the bytes of uninitialised variables,
-- the module that answers for names. The tests of each part fill them with concrete functions.
--
-- Bounds. All loops are over lists. Modules that forward exports to one another call one another; there
-- the model counts the nested calls that the stack has room for, and a call too many is undefined
-- behaviour. Where the forwards descend in a rank, room for more calls than the rank is enough. The
-- hypotheses of the form `IsU64` say that a number is a value of its C++ type.
--
-- Not modelled: BorrowedPEModule of src/pe/module.hpp and notify_dll_event_indirect of
-- src/pe/image.hpp, which do not compile as they stand; make_proc_params; the get_module of
-- LocalProcessModuleProvider, which has no body; create_process, which is only declared. Allocation
-- of C++ objects on the heap is taken to succeed. The build is one with NDEBUG, in which the
-- assertions of src/pe/image.hpp (that memory is directly addressable, and that an image is a DLL)
-- do nothing. peplus's range of base relocations is the list that the view shows when the loop over
-- it starts, although the loop writes to the memory that the range is read from.
pub mod Common
pub mod Memory
pub mod Codegen
pub mod Module
pub mod Pe
pub mod Platform
