-- ===== src/Lib.antt =====
-- A model of the C++ servers and of the game's domain of this repository, with the theorems that
-- make its parts correct.
--
-- Parts. `domain/` has cards, decks and players. `networking/` is the library of the servers: a
-- listener accepts connections and hands each socket to the program's `OnAccept`, which makes an
-- `HttpSession`; the session reads requests and asks its route manager for the callback or, for an
-- upgrade, for the websocket handler of the request's method and path; an upgrade hands the socket
-- over to a `WebSocketSession`, which calls the handler with its context. `apps/` has the programs:
-- the callbacks keep a map from uuids to contexts, and the simple game broadcasts its state to them.
-- `libs/visit` visits the members of objects by name.
--
-- Files and the code that they model:
--   Domain/Card, Deck, Player      domain/Card.h, domain/Deck.h, domain/Deck.cpp, domain/Player.h
--     Deck/Stack, Order, Shuffling, Building, Dealing: proofs on `PickCard` and the other operations
--     at the top, on `IsSorted` and `Sort`, on `Shuffle`, on `Build`, and on these together;
--     Deck/Classes: decks up to the order of their cards, as a quotient
--   Networking/Boost               what the source uses of Boost, as parameters
--   Networking/Http/Method         `HttpMethod`, `ConvertVerbBeast` (networking/http/common.hpp and
--                                  beast_utils.hpp)
--   Networking/Http/Query          `ParseUri`, `ParseQuery` (networking/http/http_session.cpp)
--   Networking/Http/Session        `HttpSession` (networking/http/http_session.h and .cpp)
--     Session/Replies, Answers, Flight, Pacing: proofs on one request, and on whole runs;
--     Session/Order, InOrder, Handled: a server that takes one request at a time, and that a
--     session is one
--   Networking/Routes              networking/route_manager_base.hpp; Routes/Lookup: proofs
--   Networking/NetUtils            `Fail`, `InitializeAcceptor` (networking/net_utils.hpp)
--   Networking/Listener            `TcpListenerBase` (networking/tcp_listener_base.h and .cpp);
--                                  Listener/Loop: proofs
--   Networking/Websocket           the store of sessions, `Send`, `Write`, the context and handler
--                                  (networking/websocket/)
--     Websocket/Session            `WebSocketSession` (networking/websocket/websocket_session.cpp)
--     Websocket/Sending, Stores,   proofs on what is sent, and on the store
--     Interleaving
--   Apps/Connections               the websocket callbacks (apps/simple_server/tcp_listener.cpp,
--                                  apps/simple_game/beast.cpp); Connections/Registry, Upkeep, Departing,
--                                  Echo, Events, Losing: proofs on the map of contexts; Effects, Changes:
--                                  what each handler does to it; Opens, Complete, Continuing: whom it has;
--                                  Quiet: who closes a stream, and
--                                  what is left in a buffer
--   Apps/SimpleGame                the HTTP callbacks (apps/simple_game/beast.cpp);
--                                  SimpleGame/Broadcast, Delays, Firing: proofs; Ready: the
--                                  invariant between two handlers; Listed, Reaching, Delivery,
--                                  AnyOrder, Audience, SharedKey: whom a new state reaches
--   Apps/Listeners                 routes and `OnAccept` of the programs (apps/simple_game/beast.cpp,
--                                  apps/simple_server/main.cpp and tcp_listener.cpp);
--                                  Listeners/Serving: proofs
--   Apps/Program                   a whole program under its `io_context` (apps/simple_game/beast.cpp,
--                                  apps/simple_server/): accepts, HTTP sessions, websocket sessions
--                                  and timers together; Program/Main: `main` and the constructor;
--                                  Tame, Fit, Safety, Runs, Started, Reached, Upgrading, Informing,
--                                  Closing, Waking, Echoing: proofs on its runs; Happenings,
--                                  Ordering: what one connection sees of a run; Losing: runs
--                                  in which a connection is lost; Unserved, ServerMain: runs of
--                                  apps/simple_server/main.cpp
--   Apps/Ports                     the port that `main` of the programs takes
--   Apps/GameSession               apps/simple_server/game_session.hpp; GameSession/Table,
--                                  Strands, Draining: proofs
--   Apps/PlayerController          `WebSocketPlayerController`
--                                  (apps/simple_server/websocket_player_controller.hpp)
--   Visit                          libs/visit: `VisitorBase`, and a visit of members; Visit/Properties:
--                                  `Property` and `Visitable` on an instance; Walk, Exits, Apart:
--                                  proofs
--   Base, Tests                    helpers; theorems and definitions at concrete inputs
--
-- How the parts of a server meet. `Apps/Program` keeps the connections by number, each an HTTP session
-- with the listener's members as its application, and the members themselves, which are the store of
-- websocket sessions with the map of contexts, the state and the timers. A completion names its
-- operation; its handler runs on the session and the members, then launches the websocket sessions
-- that it made, and a session with nothing in flight is gone. Completions are regular if their
-- operation is in flight, a handshake that succeeds had a key, a websocket read fails only by a
-- close frame, and a request's URI is parsed if the session has had no response yet; what happens
-- otherwise is in the theorems on faults.
--
-- How the code is modelled. An object is a record, and an operation a function from the record to
-- the new one. A completion handler is a function that runs when its operation completes; what it
-- starts is counted or listed in the record until then, and a run is a sequence of completions in any
-- order that the operations in flight allow. Websocket sessions live in a store: an address is a
-- number that is not used again, a session is alive while a handler in flight or a timer holds it, a
-- context is reached through the address of its session, and following the address of a session that
-- is gone is the fault `dangling_pointer`. A websocket stream is open, as Boost documents it, from the
-- handshake until an operation fails. Other faults are a null pointer, an empty optional, a
-- missing field and an `int` that overflows. An `error_code` is an `Option` that is `none` on
-- success. Texts are lists of bytes; a map is an association list, whose order stands for the order
-- in which an unordered map is walked. Other types of Boost are abstract, with the operations that the
-- source calls on them in the record `Boost`; `Responds` has the documented laws of a response.
--
-- Assumptions. Where several writes of an HTTP session overlap, they complete in the order in which
-- they were started. Each websocket session has the handler `game_handler`, the only one that the
-- routes of the programs have. No player of a `GameSession` is null.
--
-- Bounds and fuel. The loop of `Deck::Build` counts in a `std::size_t` and wraps at 2^64; it takes
-- fuel, of which n + 1 rounds are enough for n below 2^64 - 1. `to_string` takes n + 1 rounds, as a
-- number has at most as many digits. `std::stoi` is for a 32-bit `int`. `std::sort` is an insertion
-- sort, since its contract leaves the algorithm open; `std::shuffle` takes the numbers drawn
-- as an argument.
--
-- Not modelled: what is printed to the console (what `Fail` prints is logged); the limits and
-- timeouts that Boost applies; the memory of the buffer that a websocket write still reads while
-- `Send` makes the buffer grow; the options that `Run` sets on a websocket stream; exceptions of
-- `local_endpoint` and `remote_endpoint`; `params_` of a websocket session, which nothing reads; a null
-- controller given to a `GameSession`; several threads in one `io_context`, which no program has;
-- networking/.boostbeast.cpp, which is a copy of an example of Boost; the tests; the web client under
-- client/; and the build files and documentation.
pub mod Base
pub mod Domain
pub mod Networking
pub mod Apps
pub mod Visit
pub mod Tests
