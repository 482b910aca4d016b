-- ===== src/Lib.antt =====
-- A model of the peer of the PPSP streaming program (Src/EtriPPSP/EtriPPSP): its map of chunks, its
-- tree of hashes, its messages on the wire, the connection to one other peer, and the table of them.
--
-- Parts. A peer keeps a map of the chunks that it has (Binmap), asks other peers for the chunks that
-- are missing, and exchanges messages with them over datagrams (PP/). Have tells which chunks a peer
-- has and goes into the map that is kept of that peer; GetRequestData picks a chunk of the peer's map
-- for a Request; the Data that comes back goes into the file, into the map and out of the chunks that
-- are marked as asked for. Integrity carries the hashes that the data is checked with: AddIntegrity
-- keeps them by channel, and CheckDataIntegrity goes from the hash of a chunk up to RootHash. The
-- handshake opens a channel and says which methods, which content and which chunk size are meant. A
-- PPClient is one end of such a channel: its HandleMessage takes a datagram from the queue, changes
-- MyInfo, which has the map and the tree of the process, and sends datagrams. The PPServer has the
-- clients; its Receive gives each datagram to the client with the channel that it names, and makes a
-- client for a sender without one. `main` reads the arguments and the configuration, sets the PPServer
-- up with them and starts it: a seeder makes the tree of its file, a leecher clients for its peers.
--
-- Files:
--   Common, Common/...     numbers, lists and tests; Common/Int has the integers.
--   Util/Endian            IsLittleEndian, CalcEndianH2N and CalcEndianN2H of Common/Util.cpp, with
--                          the memory of the two kinds of host made explicit.
--   Util/Hex               GetStringFromHash and GetHashFromString of Common/Util.cpp.
--   Message/Buffer         the copies between fields and datagrams that all messages are made of.
--   Message/...            one file for each message of PP/: constructor, Create, GetBuffer.
--   Message/HandShake/...  the loop over the options of a handshake, whose runs are a relation in
--                          Rounds, and its round trip.
--   Binmap                 SetHave of Binmap.cpp, with the list of ranges and CP.
--   Binmap/Requests        IsHaveData, GetRequestData, SetRequested, ReleaseRequested.
--   Binmap/Finish          CheckFinish and GetBiggestHavedChunkRange.
--   Binmap/Storage         GetData, SetFileName, SetData and SetLastChunk, over the bytes of the file.
--   Tree/Sibling           _getSiblingIndex of HashTree.cpp.
--   Tree/Dict              the maps from ints, as association lists.
--   Tree/Sha               SHA_Encrypt and SHA_EncryptLR.
--   Tree/State             the nodes and the state of HashTree.h; SetRootHash, AddIntegrity.
--   Tree/Check             CheckDataIntegrity; Tree/Check/... its theorems, with Merkle proofs in
--                          Proofs and the recursive definition of the tree in Complete.
--   Tree/Send              GetDataIntegrity and GetPeakHashes.
--   Tree/Peaks             CheckPeakHash.
--   Tree/Make              Make; Tree/Make/... its theorems: the numbers of the nodes in Powers and
--                          Entries, the leaves in Adding, Reading and Padding, the levels in Merging
--                          and Rising, the whole in Hashes and Built, the size in
--                          Content, the check in Accepted.
--   Peer/Supported         SetSupportedMessages of PPServer.cpp and IsSupported of PPCommon.h.
--   Peer/Info              PPInfo of PPCommon.h.
--   Client                 the state of PPClient, Stop and SetMessage.
--   Client/Send            the functions SendX of PPClient.cpp.
--   Client/Receive         the functions ReceiveX, RetryRequest and CheckHandshaked.
--   Client/Handle          the rounds of HandleMessage, KeepAliveCheck and PEXReqCheck; Start.
--   Client/...             what they promise: Next, Rejected, Refusals, Gate, Silence; Agreement says
--                          when a handshake agrees with MyInfo.
--   Server                 the table of clients and the rounds of Receive of PPServer.cpp;
--                          Server/Channels, Server/Steps and Server/Joining are about the clients'
--                          channels, Server/Setup has the constructor, the setters, Start and Stop,
--                          and Server/Seeding is about the start of a seeder.
--   Program/Config         the configuration file of main.cpp, with the keys of Common/Common.h.
--   Program/Arguments      the arguments of main.cpp; Program/Main has `main`, Program/Launch what it
--                          comes to.
--   .../Tests              the theorems at concrete inputs.
--
-- State. Binmap is a record with the fields of the class: the list of ranges in its order, CP, the
-- keys of RequestedMap, the last chunk and its size, and the file as its bytes, whether it is open,
-- and the position of the stream. Each method is a function of the state, and gives the new state
-- with its result. A message is a record with the fields of its class; Create reads a list of bytes,
-- and GetBuffer gives one. HashTree is a record with the fields of the class, in which a pointer to a
-- node of HashTreeMap is the node's number. The state of a client is the World of Client: the record
-- of its members, MyInfo, and the datagrams sent so far; a null MyInfo is the flag `has_info`.
--
-- Numbers. A field of type int is an integer of Common/Int, and a message takes it modulo 2^32, as
-- its four bytes do. Sums and products of ints are taken without overflow, which is undefined in the
-- source; the theorems on messages ask for fields in range. A read past the end of an array, and a
-- negative size, are undefined in the source too, and give `none` or `fault` here.
--
-- Loops. CheckFinish goes over a list that gets shorter with each pass but the last, and has one round
-- more than there are ranges. The options of a handshake take a byte or more each, and have one round
-- more than there are bytes. The walk of CheckDataIntegrity doubles the node in each round, so the
-- bound on the sibling's number plus two is enough rounds; the walks over the maps have as many as the
-- highest number of a node in them plus two; the walk to the root has one for each node of the tree.
-- Make reads a chunk of a byte or more in each round, fills the leaves up to less than twice as many,
-- and doubles the nodes' distance from level to level, so the number of bytes, of the next leaf and of
-- the leaves are enough rounds. All other loops follow a list or a number of rounds that is known before.
--
-- Parameters. `inet_addr` and `inet_ntoa` of the system are the fields of the record Inet; the four
-- functions of SHA/ are those of the record Hasher, and HasDigests says how many bytes they write;
-- `(int)pow(2, log2(x) + 1)` is the field `doubled` of Env, which also has the clock, the bytes in
-- memory behind a datagram and what PEXCallback gives.
--
-- Not modelled: the socket of PPServer; threads that come between the steps of another, the mutexes
-- but for CancelMutex in ReceiveRequest, and the memory that is freed; sockets, log and clock; the text
-- of the usage in main.cpp, and the copy of another project's hash functions (SHA/).
pub mod Common
pub mod Util
pub mod Message
pub mod Binmap
pub mod Tree
pub mod Peer
pub mod Client
pub mod Program
pub mod Server
