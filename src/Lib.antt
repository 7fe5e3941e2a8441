-- ===== src/Lib.antt =====
-- A model of vexllvm, which runs guest code by translating it: VEX turns a guest address into a
-- superblock, LLVM turns the superblock into a function and the function into compiled code, and
-- a dispatcher runs that code one superblock at a time.
--
-- Parts, and the files that model them:
-- - DirectCache: src/directcache.h, the direct-mapped cache in front of each map.
-- - Cache: src/vexfcache.cc and src/vexjitcache.cc. Cache/State has the fields of both classes in
--   one record; Lookup, Evict, Fetch and Jit have their methods. A method that a subclass
--   overrides is an argument (`evict` in Fetch, `flush` of `set_max_cache`). Cache/Coherence has
--   the invariant of the caches and its proofs, Cache/Capacity and Cache/Room the bound on the
--   superblocks and the eviction that keeps it, Cache/Exits the loop of getFPtr.
-- - Exec: src/vexexec.cc. Exec/State has the dispatcher's fields, Dispatch a round (doNextSB), its
--   parts and the SIGSEGV handler, Loop the loop over the rounds (run). Invariant, Rounds,
--   Protection, Signals and Pending have the proofs.
-- - Superblock: src/vexsb.cc. Superblock/Load creates a superblock from VEX's statements and jump,
--   and has the exit type that its code leaves; Imarks and Jumps have the proofs, the latter
--   together with the dispatcher's switch. Registers has its temporaries.
-- - CrossCheck: src/vexexecchk.cc and src/vexexecfastchk.cc, which run a native process behind the
--   guest. CrossCheck/Shadow has the checker's state and when it steps, waits and compares,
--   CrossCheck/Deferred the proofs. CrossCheck/Fast has the checker that compares at system calls
--   alone, with the native process and its log of marshalled system calls as parameters.
-- - PtShadow: src/cpu/ptshadowamd64.cc with the registers of src/cpu/amd64cpustate.cc. Regs has both
--   sides' registers and the copies between them, Compare whether they match, Decode what can be
--   fixed up; Matched, Copies and Fewer have the proofs.
-- - PtImage: src/ptimgchk.cc and src/memlog.h. MemLog has the last store and its comparison, Pages
--   the comparison and the copies of pages, Check the checks and fixups over all of it, with
--   verifyBlockRun of src/vexexecchk.cc. Stored, Traced, Fixed, Settled and Slurped have the proofs.
-- - FragCache: src/fragcache.cc. FragCache/File has the state and the methods of FCFile, the
--   fragments of one length, and FragCache/Searchable the proof that it is a set of fragments.
--   FragCache/Hash has the table of hashes, FCHash, and FragCache/Unset what it answers.
--   FragCache/Table has FragCache, a file for each length behind the hashes, and Once its
--   addFragment.
-- - Support: support/vexops.c, the operations that compiled code calls: Count, with its proofs in
--   Counted, on words, and Floats on a floating-point type that is a parameter.
-- - Translator: src/vexxlate.cc, which has libVEX decode the guest's bytes. libVEX is a parameter;
--   what it hands over becomes a superblock by Superblock/Load, and its bytes go to
--   FragCache/Table. Patch has the system calls that are patched, Once one call of xlate, Ends the
--   calls that follow each other.
-- - Vex: the translation of VEX to LLVM, of which each level stands on the one before.
--   - Vex/Llvm: the builder that the code calls, a parameter (Builder), with what the LLVM
--     language reference says of it (Words, Documented), rules for words (Scalars), sums of
--     fields (Fields), and a builder that computes, for the tests (Machine).
--   - Vex/Scalar and Vex/Vector: src/vexop.cc with the macros of src/vexop_macros.h. Each macro
--     is a function, and each table of its uses a function on the opcodes that it declares.
--     Below them, a module per macro has what it computes.
--   - Vex/Context: src/genllvm.cc, its accesses to the guest's CPU state: Pointers the cache of
--     pointers, Placed and Cached where its pointers stand, Index the rotating arrays, Layout the
--     struct type.
--   - Vex/Exprs and Vex/Stmts: src/vexexpr.cc and src/vexstmt.cc. Both the emission and the run of
--     what it emits are one function from a state of temporaries, CPU state and memory: a
--     conditional branch of the builder is an `if` on the value that it branches on, the
--     emission of both of its sides comes first, and a phi is its value.
-- - Syscalls: src/cpu/amd64syscalls.cc, whose twins for ARM and i386 have the same text: Numbers
--   has the tables of system call numbers, and Translated what a number is translated to.
-- - Tests: runs at concrete inputs.
--
-- How they interact: a round flushes what the last signals asked for, protects the page of the
-- next address, has the caches fetch its superblock and compiled code, runs the code, and acts on
-- the exit type that the code left. The code may meet SIGSEGV, whose handler changes the page's
-- protection and asks for a flush, which the next round makes. The compiled code is what the
-- emitters of Vex produced for the superblock's statements; the exit type that a conditional exit
-- leaves in the CPU state is the one that the dispatcher acts on.
--
-- State and errors: a method is a function from the state to a `Result` of the new state; a
-- failed assert, undefined behaviour or an exit of the process is a `fault`. Pointers to
-- superblocks, functions and compiled code are numbers, a null pointer is `none`, and the list
-- `destroyed` records which functions are gone. Guest addresses are numbers; where the source's
-- arithmetic on them wraps at 64 bits, `% 2 ^ 64` is written out, but for the end of the last
-- store in readMemLogData, which the model takes to lie below 2 ^ 64. The bytes that fchash_cmp
-- reads behind a digest are left out. An expression of VEX counts in a superblock by how
-- VexExpr::create ends for it.
--
-- What stands outside: `Backend` (VEX, the LLVM emitter, the JIT engine, rand), `Guest` (the
-- guest's memory, a library) and `Env` (what one round meets: the run of the compiled code, the
-- system call) are parameters, and so are the sorting, searching, comparing and hashing of the
-- libraries that the fragment cache calls, and the relations of syscallsmapping.h. `Native` (the
-- native process and its comparison with the guest) is a parameter of the fast checker, `Builder`
-- (LLVM's builder) and `Host` (loads and stores of the CPU state and of memory) are parameters of
-- Vex. The native process's own setRegs is a parameter of PtImage (`set_regs_fp`). Theorems name what they rely on: IsAddressed, that a superblock has the address that was
-- asked for, KeepsMappings, that a recorded mapping is found, IsLibc, what the C library promises,
-- IsIeee, what IEEE 754 says of comparisons, and IsDocumented, what the LLVM language reference
-- says of the builder's operations, and IsTidying, that libVEX returns without a call of finaltidy
-- only where it cannot read the bytes. Translator's own Env has libVEX, the libraries of the
-- fragment cache, and the kernel's write to the log of fragments.
--
-- Fuel: the loop over the exits has fuel for three rounds, and Cache.Exits shows that it ends
-- before. The count loops have fuel for each bit of the word, and Support.Counted shows that they
-- end by their tests. The dispatcher's loop goes on for as many rounds as it is given answers.
-- The translator calls itself as many times as it is given, of which 128 are enough: each patch
-- lies behind the one before, among the 128 places that are searched (Translator.Ends).
--
-- Not modelled: printing and logging, the reading of the environment, floating-point operations,
-- calls of helpers (CCall, Dirty), the choice of an opcode's class, the flags that libVEX is set
-- up with, LLVM's modules and passes, reads of the system page, the guest CPU states but the
-- registers of AMD64, the single steps of a native process, the handlers of single system calls,
-- core files, the copy of QEMU's system calls, and the tools.
pub mod Base
pub mod DirectCache
pub mod Cache
pub mod Exec
pub mod Support
pub mod Tests
pub mod FragCache
pub mod Superblock
pub mod CrossCheck
pub mod Vex
pub mod Syscalls
pub mod PtShadow
pub mod PtImage
pub mod Translator
