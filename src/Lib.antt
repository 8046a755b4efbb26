-- ===== src/Lib.antt =====
-- A model of the dataflow netlists of Buffers/src, the part of the tool chain that places buffers
-- in elastic circuits, with the theorems that make the netlist sound.
--
-- A netlist is a graph of blocks whose input and output ports are joined by channels. The class
-- DFnetlist_Impl keeps blocks, ports and channels in three vectors that recycle their slots, and
-- objects name one another by identifiers. Buffers are properties of channels until they are
-- instantiated as blocks.
--
-- The files, and the code that each is about:
--   Common           sets, texts, dictionaries and integers of C++ (std::set, std::string, std::map)
--   Slab             the slot vectors (Buffers/src/DFnetlist.h, DFnetlist.cpp): allocation takes
--                    freeBlock, freePort or freeChannel, release links nextFree
--   Netlist/Types    BlockType, PortType, Block, Port, Channel and the state of DFnetlist_Impl
--                    (Buffers/src/Dataflow.h, DFnetlist.h), init, validBlock, validPort and
--                    validChannel
--   Netlist/Names    genBlockName and genFreshPortName (Buffers/src/DFnetlist.cpp)
--   Netlist/Blocks, Netlist/Ports, Netlist/Channels
--                    createBlock, removeBlock, createPort, removePort, createChannel, removeChannel
--                    and the readers of connections (Buffers/src/DFnetlist.cpp)
--   Netlist/Attributes, Netlist/PortAttributes
--                    the getters and setters (Buffers/src/DFnetlist.cpp, DFnetlist.h)
--   Netlist/Invariant, Netlist/Safety, Netlist/Reach
--                    the well-formed netlists, and that the operations keep them well formed
--   Netlist/Tests    runs on a small netlist
--   Buffers          insertBuffer, removeBuffer, instantiateElasticBuffers, hideElasticBuffers and
--                    cleanElasticBuffers (Buffers/src/DFnetlist_buffers.cpp)
--   Buffers/Parts, Buffers/Make, Buffers/Rewire, Buffers/Outcome, Buffers/Insert, Buffers/Remove,
--   Buffers/Instantiate, Buffers/RoundTrip
--                    what insertBuffer and removeBuffer do to a netlist, one after the other too,
--                    and what one round of instantiateElasticBuffers does
--   SetUtil          the set operations of Buffers/src/SetUtil.h, and that they are those of sets
--   DisjointSets     makeDisjointBB, findDisjointBB and unionDisjointBB, and their theorems
--                    (Buffers/src/DFnetlsit_BasicBlocks.cpp)
--   Widths           inferChannelWidth (Buffers/src/DFnetlist_channel_width.cpp); its children
--                    show that it ends and what it reaches
--   Checks           the checks of a netlist (Buffers/src/DFnetlist_check.cpp): Checks and Checks/Roles
--                    for single blocks, Checks/Driver for check() and calculateBackEdges
--                    (Buffers/src/DFnetlist_Connectivity.cpp); the other children prove what the
--                    checks decide
--   Connectivity     the depth-first search `DFS` (Buffers/src/DFnetlist_Connectivity.cpp): `walk` is its
--                    inner loop, on fuel that counts each block and each port once, which is enough,
--                    since a block is entered once and a port pushes one child at most;
--                    Connectivity/Components is eraseNonSCC after computeSCC, which is not modelled,
--                    with invalidateBasicBlocks (Buffers/src/DFnetlsit_BasicBlocks.cpp) at its end
--   Bitwidth         the bit information of the bitwidth optimisation and its helpers
--                    (elastic-circuits/OptimizeBitwidth/utils.cpp, info.cpp, and operations.h and
--                    info.h of elastic-circuits/include/OptimizeBitwidth); Bitwidth/Forward the forward
--                    rules of elastic-circuits/OptimizeBitwidth/OptimizeBitwidth.cpp, and the other
--                    children that these describe the values of the instructions
--   StringUtils      the helpers on texts of dot2vhdl/src/string_utils.cpp, and their theorems
--   Samples          a small netlist for the tests
--
-- An identifier that may be -1 (invalidDataflowID) is an Option; a vector that is read out of range
-- gives a value-initialised object, and no proof depends on it for an identifier that exists. A
-- method is a function from a netlist to an optional answer and netlist, and `none` is a failed
-- assertion. A std::set of identifiers is the ordered list of its elements. Texts are lists of
-- character codes. Real numbers are counted in thousandths. Numbers that the code keeps in an int
-- are natural numbers or integers without bound: a netlist has far fewer than 2^31 objects.
--
-- The loops of genBlockName and genFreshPortName have no bound in the code. Here they have one round
-- more than the dictionary has entries, which is enough, since the names that they try are different.
-- removeBlock has as many rounds as the block has ports. findDisjointBB has one call more than the
-- greatest rank, which is enough, since ranks grow towards the root. The rounds of inferChannelWidth
-- are one more than the ports, which is enough, since each round but the last defines a width.
-- eraseAllSubStr has a round more than the text has characters, which is enough, since a round takes
-- some away.
--
-- Not modelled: the integer-programming models and the extraction of marked graphs, which feed an
-- external solver; reading and writing DOT files; the compiler passes of elastic-circuits, whose
-- classes belong to LLVM, but for the parts of the bitwidth optimisation named above; the VHDL writer,
-- but for its helpers on texts (stoi_p left out, which wraps std::stoi); computeSCC; and examples and
-- benchmarks.

pub mod Common
pub mod Slab
pub mod Netlist
pub mod Bitwidth
pub mod SetUtil
pub mod Buffers
pub mod DisjointSets
pub mod Widths
pub mod Checks
pub mod Connectivity
pub mod StringUtils
pub mod Samples
