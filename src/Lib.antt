-- ===== src/Lib.antt =====
-- Verification library for McSema: the loader of control-flow graphs and what the lifter makes of
-- its data segments, and the jump tables, data references, external functions and external
-- addresses of the Dyninst front end.
--
-- The program. A front end (tools/mcsema_disass) disassembles a binary and writes a control-flow
-- graph as a protocol buffer. ReadProtoBuf of mcsema/CFG/CFG.cpp reads it into a NativeModule:
-- objects (functions, variables, segments) that may forward to one another, blocks with their
-- instructions, register sets, and data segments whose bytes and cross-references have to partition
-- them. The lifter (mcsema/BC, tools/mcsema_lift) then turns the module into LLVM bitcode;
-- mcsema/BC/Segment.cpp gives a type and an initial value to every data segment, and relies on the
-- partition for both.
--
-- The files.
-- Prelude.antt, Prelude/: what all files share. Tests: Boolean tests. Lists: lists over native numbers.
--   Words: uint64_t and unsigned with their wrap-around. Maps: std::map as a sorted association list,
--   with find, operator[], emplace and erase. Options: chains of steps. Texts: equality of strings.
-- Cfg/Types.antt: the records of mcsema/CFG/CFG.h for data (NativeXref, NativeBlob, NativeSegment and
--   its Entry), and a failed CHECK as a value. An object is named by a number, a null pointer is none.
-- Cfg/Forward.antt: NativeObject::Get and ForwardTo. The forwarding pointers of all objects are one
--   function. Roots and Classes are about representatives, Fuel about more of it, Kinds about objects
--   of two kinds.
-- Cfg/Objects.antt: the objects of a NativeModule, TryGetFunction, TryGetVariable and TryGetSegment.
--   Indexed and Lookups are about the maps from addresses, Segments about the two TryGetSegment.
-- Cfg/Decls.antt: RecoverFunctionDecl and what it calls. Recovered is about when it has a
--   result, Specified about what that says.
-- Cfg/Loader.antt: the first four loops of ReadProtoBuf one behind the other, each in its own file:
--   Functions, Externals, Variables, Segments. Kept, KeptVariables, KeptSegments and Whole are about
--   the maps from addresses, First and Exported about functions as a map, Settled, Redirected and Ends
--   about enough fuel.
-- Cfg/Xrefs.antt: ResolveReference and the loop of ReadProtoBuf over the cross-references of a segment.
--   Fit, Placement, Widths and Entered are about the entries that it makes.
-- Cfg/Partition.antt: the loop that fills the gaps with blobs, and the verification behind it. Cover
--   and Order are about tilings, Bytes about the zero flag, Gaps about a single gap, Total about the
--   stage as a whole.
-- Cfg/Entries.antt: both stages, one behind the other.
-- Cfg/Blocks.antt: the loops over blocks and instructions, FillXref, and TryGetBlock.
-- Cfg/Bodies.antt: the loop of ReadProtoBuf over the bodies of the functions, with their exception
--   frames and blocks. Given and Known are about the blocks of a function.
-- Cfg/Names.antt: SaneName, LiftedFunctionName, LiftedSegmentName, LiftedVarName, ExternalFuncName.
-- Cfg/Registers.antt: preserved and dead register sets and the ForEach...Register visits of CFG.h.
-- Cfg/Merge.antt: pruning and merging of adjacent segments, padding, and the order by size.
-- Bc/Segments.antt: IsZero, GetSegmentType and FillDataSegment of mcsema/BC/Segment.cpp. Size and Values
--   are about types and values, Picks and Lazy about single entries, Loaded goes from the loader's
--   input to the type.
-- Dyninst/Sections.antt: SectionManager of tools/mcsema_disass/dyninst. Names is about lookups by name.
-- Dyninst/OffsetTables.antt: OffsetTable there, which tells jump tables of offsets. Agree and Parsed are
--   about Parse, Moved about Recompute and Match, Blind about BlindMatch.
-- Dyninst/Magic.antt: MagicSection there, which hands out addresses for external objects.
-- Dyninst/Externals.antt: ExternalFunctionManager there. Definitions reads one line of the definitions
--   file; Numbers, Printed and File are about printing and reading, Order about the
--   used names as a set, Used about the tables.
-- Dyninst/Context.antt: CrossXref and DisassContext there, as far as data refers to something. Written
--   is about the messages that are written.
-- Dyninst/Parser.antt: SectionParser there, which searches a section for references and tables. Rounds
--   and Ends are about ParseVariables, Offsets about TryOffsetTable, Resolved about ResolveCrossXrefs.
-- The files Tests.antt hold examples.
--
-- Choices. A loop that is not over a list runs on fuel. Get and ForwardTo take the fuel as an
-- argument: a chain that is longer fails with out_of_fuel, and the theorems ask for more fuel than
-- the chain has hops, or say from which amount on the result is the same. The search for the next
-- variable runs at most over the gap, cut_blobs and fill_gap over one more round than the gap has
-- bytes. Merging goes over the list of segments and needs fuel 2 for each ForwardTo, since a
-- segment there stands for itself. A hexadecimal number has 16 digits, and TryGetBlock has 256
-- rounds as in the source. BlindMatch needs a round for each word of the table and one more,
-- ParseVariables one for each byte of the region and one more. A vector that is filled at its back
-- is a list whose head is the back. std::sort is insertion sort with the source's comparison,
-- std::set a list in the order of std::string, std::unordered_map a list of what was put in; signed
-- addresses of the protocol buffer are read as the words that the code casts them to. A byte range
-- is its address and a function from offsets to bytes.
--
-- Parameters. Whether a byte is executable; the words in the memory of a region of Dyninst; whether
-- anvill maps a range, and its bytes; the registers of the architecture, the types that anvill
-- parses, and what it makes of a declaration; the functions of the LLVM module; the lookups of an
-- address in the maps of the module, where a stage only reads them; the size that the LLVM data
-- layout gives to a type; whether an object is external or thread-local, and whether the constant
-- for a target is a pointer; the type that the LLVM module has under a name.
--
-- Not modelled. Reading the file of the protocol buffer, the construction of LLVM instructions in
-- mcsema/BC, the runtime, and the rest of the front ends, which are programs against IDA Pro and
-- Dyninst. Log messages are left out.
pub mod Prelude
pub mod Cfg
pub mod Bc
pub mod Dyninst
