-- ===== src/Lib.antt =====
-- Quirrel, a dynamic language with a bytecode virtual machine: a model of parts of its C++ sources and
-- theorems about them. The build modelled has 64-bit SQInteger and 32-bit SQFloat on a little-endian
-- machine.
--
-- The program. The compiler turns a script into instructions, the optimizer (squirrel/compiler/
-- optimizer.cpp) rewrites them, and the virtual machine (squirrel/sqvm.cpp) executes them. The standard
-- library's serializer (sqstdlib/sqstdserialization.cpp) writes objects of the machine to a stream, of
-- which the in-memory blob (sqstdlib/sqstdblobimpl.h) is one. Script tables, and the scopes and members
-- that the machine keeps, are hash tables (squirrel/sqtable.cpp).
--
-- Prelude: lists, integers and machine words over native numbers, results, Boolean tests.
--
-- Serializer: SQStreamSerializer. Value has the objects, Write has serializeObject and serialize, Read
--   has deserializeObject and deserialize, with one function for each branch and the fields of the
--   struct in Writer and Reader. A table is its slots in the order of the walk. The stream is a list of
--   bytes. `availableClasses` is null: an instance is refused in both directions, and __getstate and
--   __setstate are not modelled. Floats are bit patterns; the cast from double to float is a parameter.
--   An assertion of the source is no step, as in a release build. deserializeObject is by recursion on
--   fuel, since a call consumes the input by what it reads: `deserialize` gives it twice the length of
--   the input and two, where a call on an object takes at least a byte and each element or slot costs
--   one unit more. Progress and Total are about the fuel.
--   Valid says which values come back; Bytes, Leaves, States and Frames carry the round trip of RoundTrip.
--
-- Blob: SQBlob. The buffer is a list of bytes, as long as `_allocated`. Allocation does not fail,
--   and the size of a Read is not negative.
--
-- Vm: Object has SQObjectPtr, with an address for every reference, and the parameters of the machine in
--   the record Env: the float unit, strcmp, printing, and what a metamethod returns (its effect on the
--   heap is left out). Shift has internal/sq_safe_shift.h, Arith has ARITH_OP, BW_OP, NEG_OP, StringCat
--   and the macros _ARITH_ and _ARITH_NOZERO, where null beside a number counts as 0,
--   Compare has ObjCmp and its variants, CMP_OP and IsEqual.
--   Signed overflow, undefined in C++, wraps. An error is a constructor of VmError, not its text.
--
-- Optimizer: Code has the instructions that constant folding touches and their execution on the
--   registers of a frame, Fold has the folding of one window of optimizeConstFolding, Cut has the range
--   tests and cutRange, Removal has what is cut behind a folding. The loop over the code, the
--   rewriting of _OP_JCMP, jump folding and empty jumps are not modelled. The constants are those of
--   _OP_LOADINT and _OP_LOADFLOAT, so that a window is two registers, two constants and an operation.
--
-- Types: Masks has inferExprTypeMask and checkInferredType of squirrel/compiler/typeinference.cpp, on
--   literals, operators and conditionals; an identifier or a call, whose mask comes from the scope, is
--   an expression with a mask. Numbers and Sums hold the masks against the arithmetic of Vm.
--   Names has the names of types and parse_type_mask of squirrel/compiler/sqtypeparser.cpp, where a
--   text is the bytes before its zero and an error has what is left of it; its loop is on fuel, the
--   length of the text and one, since every name takes a byte. Parses is about it.
--   Functions has sq_parse_function_type_string: Text what its parts share, Scanner the default values,
--   Arguments the loop over the arguments, Parse the rest. The loops over modifiers and arguments are on
--   fuel, the length of the text and one, since every round takes a byte. Ends, Steps, Total and Aligned
--   are about it. The printing of masks and function types is not modelled.
--
-- Table: SQTable (squirrel/sqtable.h, squirrel/sqtable.cpp). Nodes has the nodes, searching and
--   placing, Slots the operations that change a table. A pointer to a node is its index, the nodes
--   are a function of it, and freed memory is of no account. The key and its hash, HashObj, are a
--   parameter; a value is what is stored, so that Get's way through a weak reference is its
--   caller's. A table has at most 2^32 nodes, as 32 bits name them; a larger one, which has no
--   memory, is outside of the model. A walk along a chain is on fuel, the size of the table, which
--   bounds every chain. NewSlot calls itself through Rehash and behind it: two nested calls are
--   enough, since a table of the new size has room. Chains has the invariant, Placing and Places the
--   three ways to place a key, Count the free pointer, Valid and Writes the map a table stands for,
--   Insert, Sizes and Rehash the growth, and Updates, Remove, Create, Copies and Iteration what the
--   operations promise.
--
-- Arrays: Vector has sqvector (squirrel/squtils.h), whose cells are a function of the index, and the
--   operations of SQArray (squirrel/sqarray.h) on it; what new memory holds is a parameter, and so is
--   the value of `T()`. Sizes stay below 2^32 and allocation does not fail. Contents and
--   Operations have what these do to the elements.
--
-- Classes: SQClass and SQInstance (squirrel/sqclass.h, squirrel/sqclass.cpp). Index has the integers
--   that stand for members, Members what a class asks of its member table, which Tables fills with the
--   hash table. Class has the operations on a class's members; an Outcome is fault where a vector would
--   be left. Sound has the invariant: the table's numbers lead into the vectors, and every place has one
--   name. Carried, Places, Overrides, Fields, Methods and Natives are about one kind of write each,
--   Writing, Slots, Register and UdSize about the whole operations. Store has Lock, Create,
--   CreateInstance and InstanceOf on classes at addresses, with fuel for the length of the base chain,
--   which Depth says is enough; a metamethod's call is a parameter, of which IsScript says what scripts
--   cannot do to classes. Locks, Lineage and Layout are about these. Instance has Get and Set of an
--   instance and its native fields, with the float unit (the bits of
--   a float, of a double, and of an integer converted to either) a parameter; Cells, NativeFields, Accesses and
--   Sets are about it. An instance's memory block, its clone and its release are not modelled.
--
-- Not modelled: the lexer, the parser, the rest of the code generator, the static analyzer,
-- the heap and its collector, calls and generators, the
-- embedding interface, the rest of the standard library, and module loading.
pub mod Prelude
pub mod Serializer
pub mod Blob
pub mod Vm
pub mod Optimizer
pub mod Table
pub mod Arrays
pub mod Classes
pub mod Types
pub mod Tests
