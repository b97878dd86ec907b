-- ===== src/Lib.antt =====
-- The node's core: what it puts on the wire, how a connection to another node runs, and how it ranks
-- the validators it hears of.
--
-- Parts and files:
--   Prelude      lists, tests, results, integers and association lists that the others share.
--   Serializer   shared/Serializer.cpp and shared/Serializer.h. Buffer: the byte vector with the
--                fixed-width writers and readers; Vl: variable-length values; Tagged: tagged lists;
--                Iterator: SerializerIterator.
--   Packet       shared/PackedMessage.cpp, the frame of length and type before a message.
--   Peer         src/Peer/Peer.cpp. State: the record of a peer and the methods that do not look at
--                messages; Reading: the read handlers and the dispatch, which use Packet; Sending,
--                Lifecycle and Runs: sequences of events.
--   Pool         src/ConnectionPool/ConnectionPool.cpp. Pool: the state, the statements on the table
--                PeerIps as an interface, and the calls on peers and timers; Peers: the maps by
--                address and by node key, and relaying; Policy: dialling up to the low-water mark;
--                Scan: scanning addresses, and the ends of connections.
--   Hex          hexadecimal text in shared/utils.cpp and shared/utils.h.
--   Base58       shared/base58.h. Digits: the digits of a number in a base; Parts and RoundTrip: what
--                decoding makes of an encoding; Refused: texts of words; Checksum: the check sum, and addresses.
--   Uint         counting and comparing in shared/uint256.h; Small: the assignment of 64 bits and the
--                complement; Text: SetHex and GetHex.
--   Address      src/NewcoinAddress/NewcoinAddress.cpp and the class CBase58Data of shared/base58.h;
--                Seeds: the words of a seed, which use Words, and setSeedGeneric on them.
--   Wallet       src/Wallet/Wallet.cpp, the node's identity, whose keys are addresses; Restart: over
--                Base58.
--   Sections     shared/ParseSection.cpp, the sections of a file.
--   Words        shared/rfc1751.cpp. Dictionary: pcDict; Search: the search of a word; Buffer: the runs
--                of eleven bits in nine bytes, and the parity; Keys: a key and its words.
--   Https        shared/HttpsClient.cpp, the client that fetches a file of a site. Outcomes, Steps and
--                Ends: its runs; Sites: how it leaves a site.
--   Unl          src/UniqueNodeList/UniqueNodeList.cpp. Index, Rounds and Compute: scoreCompute, with
--                the nodes that it gathers, the rounds of points and the scores of addresses;
--                Sources: iSourceScore, which Pool uses too; State: the list between two handlers,
--                its tables and the operations that it starts; Scoring: when it scores; Fetch: the
--                fetches of site files; Seeds: adding and removing seeds; Sites: the handlers of
--                the responses, which use Sections; Startup: start and nodeBootstrap; Runs: the
--                handlers in any order.
--   Checks       the theorems at concrete inputs.
--
-- A function has the name of the C++ function in snake case. A method that changes an object takes
-- the object's record and returns the new one. A method of Peer returns, beside the peer, the list
-- of asynchronous operations it starts and calls it makes, in order; the completion of an operation
-- comes back as an event, and a run is any list of events, so every interleaving of handlers is
-- covered; the handlers run on one thread. The methods of UniqueNodeList that start an operation
-- are written in the same way, and its runs are the worlds that a relation reaches. The handlers of
-- HttpsClient are the steps of a relation too, in which boost may tell any code. A failed assertion
-- there is the effect `abort`, after which nothing follows. Elsewhere exceptions and failed
-- assertions are values of Result.
--
-- Integers are natural numbers with the wrap-around of the C++ type written out where a value is
-- shifted or stored; offsets and sizes are taken to be smaller than 2^31. Scores are C++ ints taken
-- not to overflow. Loops are structural recursion over lists or over the count that the code counts
-- down. The digits of a number in a base are taken on fuel that is the number. Two functions of the
-- pool call themselves until a query of the table gives nothing more: they run on fuel, and one
-- round more than there are rows to connect to, or rows that are due, is enough. fetchNext calls
-- itself for each fetch that it starts, and one round more than there are free jobs is enough. The
-- loop of scoreCompute over the nodes that it adds itself takes fuel for the seeded nodes and for
-- the names that referrals give, and wsrch for one round more than there are words in its range.
-- One call of scanRefresh, and one handler of UniqueNodeList, is
-- taken to run within one second of the clock.
--
-- Parameters stand for what the repository does not hold: the protocol buffers' parser, and the
-- handlers whose bodies are commented out (sendHello, recvHello, the ledger and transaction
-- messages). SQLite is the interfaces Table, ScoreTables and Tables, whose operations are the
-- statements that the code executes; what the theorems need of it is among their hypotheses. Reader
-- holds what reads texts for UniqueNodeList: boost's regular expressions, splits and trims,
-- parseIpPort, httpsParseUrl, the base 58 code, the seeds and the hash. Base58 takes the hash as an
-- argument, Words boost's split, and Https the codes that boost's calls answer and the two regular
-- expressions. Whether push_back moves the nodes of scoreCompute is an argument, a test of their
-- number. The byte that btoe and etob read without having written it, or outside of an array,
-- is an argument too.
--
-- Not modelled: what the program does after a write to freed memory, which scoreCompute only marks;
-- OpenSSL's hashes, keys and ciphers, SQLite and its wrappers, the JSON library,
-- logging, timers' clocks and sockets. The wallet's other data, the configuration, the other bit
-- operations of shared/uint256.h and the other text helpers are not modelled either.
pub mod Address
pub mod Base58
pub mod Checks
pub mod Prelude
pub mod Sections
pub mod Serializer
pub mod Hex
pub mod Https
pub mod Packet
pub mod Peer
pub mod Pool
pub mod Uint
pub mod Unl
pub mod Wallet
pub mod Words
