-- ===== src/Lib.antt =====
-- A model of rzu, the servers and libraries around the protocol of a game: the authentication server, the
-- upload server, the log server, the relay that keeps a game server's session over reconnections, and the
-- library's packets and bans.
--
-- rzauth/src/AuthServer keeps, between the clients that log in and the game servers that play with
-- them, a registry of players (ClientData.cpp: two maps to one heap of objects), a table of game
-- servers (GameData.cpp), and one object per connection (ClientSession.cpp, GameServerSession.cpp).
-- The objects point to one another: a client's session to its player and back until the player is
-- handed over to a game server, a game server's session to its data and back.
--
--   Prelude           lists, Boolean tests, association lists with unique keys
--   Auth/State        the objects, on heaps whose addresses are numbers, and what is sent
--   Auth/Client       ClientData.cpp: tryAddClient, removeClient, switchClientToServer, removeServer
--   Auth/Game         GameData.cpp, and the two setters setGameData and setGameServer
--   Auth/GameServer   GameServerSession.cpp: one function per handler, and the destructor
--   Auth/Session      ClientSession.cpp: one function per handler, and the answer of its query
--   Auth/Invariant    the invariant of the whole state, and what keeps it
--   Auth/Database     DB_Account.cpp: the checks of a name, a password and the row that is found
--   Auth/Log          LogServerClient.cpp: the messages that wait, and their frames
--   Auth/System       the events of the server, one function, and the states that they reach
--   Auth/Flow         what the operations do one after another
--   Net/Framing       librzu/src/lib/NetSession/PacketSession.cpp: onDataReceived
--   Net/Encodings     librzu/src/lib/Packet: EncodingScrambled.cpp, EncodingRandomized.h
--   Net/Bans          librzu/src/lib/NetSession: BanManager.cpp, and SessionServer.cpp as far as it uses it
--   Upload/Icons      rzauth/src/UploadServer/IconServerSession.cpp: parseData, parseUrl, checkName
--   Upload/Transfers  UploadRequest.cpp and the two sessions of rzauth/src/UploadServer
--   Net/Streams       librzu/src/lib/Stream/Stream.cpp: connect and close
--   Reconnect         rzgamereconnect/src/AuthServer: AuthSession.cpp and GameServerSession.cpp
--   LogServer         rzlog/src/LogServer: LogPacketSession.cpp and ClientSession.cpp
--   Auction/Categories rzauctionmonitor/lib/CategoryTimeManager.cpp: when each category was searched
--   Auction/Simple    AuctionSimpleData.cpp and AuctionSimpleDiffWriter.cpp: which auctions came, went or changed
--   Auction/Complex   AuctionComplexData.cpp (Data, Status) and AuctionComplexDiffWriter.cpp (Writer)
--   Auction/RoundTrip importDump after exportDump, for both writers
--   Auth/Tests        runs, and uses of the theorems at their states (also Net/Tests, Upload/Tests and others)
--
-- rzgamereconnect stands between one game server and rzauth: each GameServerSession has an AuthSession,
-- which holds the messages back while rzauth is away and reconnects with the list of accounts. rzlog reads
-- the frames that LogServerClient.cpp of rzauth writes, and stores a line for each.
--
-- rzauctionmonitor follows auctions from search to search: a writer begins a round, gets the results of the
-- search, ends the round, and dumps what changed. Its map, a copy of another project, is a parameter with the
-- laws that the writers need (Auction/Writer: FlatMap); Auction/Tests/Container is one.
--
-- A read through a null or dangling pointer, and a division by zero, is `none`; so is an event of a client's
-- session that is deleted. The maps are
-- association lists, so no theorem rests on an order. `setGameData` and `setGameServer` call one
-- another to a depth of seven at most, which is the fuel (`nesting`); two theorems of Auth/Game/Link
-- say that it is enough. The loop of onDataReceived has one round per available byte and one more. The packets of an
-- account list take a round for each account at most, and the reader of rzlog one for each byte, so fuel of one
-- more is enough. Times, one-time passwords and the configuration are arguments.
--
-- Not modelled: OpenSSL (the RSA key of a client and what is encrypted with it), logging, the mutex
-- of the registry (the event loop is one thread), the ban file and its limits' reload, the console, and the other programs of the
-- repository.
pub mod Auction
pub mod Auth
pub mod LogServer
pub mod Net
pub mod Prelude
pub mod Reconnect
pub mod Upload
