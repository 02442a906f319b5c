-- ===== src/Lib.antt =====
-- A model of tyfirc, a chat server and its client. They talk over TLS in messages that a zero byte
-- ends (`ScMessage`). A client connects, sends a login or a registration, and then chat messages;
-- the server answers the first by asking its `FileAuthManager`, and sends the second, with the
-- sender's name and its own time, to every session of its chat room.
--
-- Base: strings as lists of bytes, maps as ordered association lists, results that can throw or
--   run into undefined behaviour, and lemmas on them.
-- Misc, Time: tyfirc/tyfirc-misc.cpp. `split` is `Split`; the time zone of the machine and the
--   reading of a fraction of a second are the parameter `Clock`, with what the C library documents
--   as `IsClock`. Times count from the earliest `time_t`, so that none is negative.
-- Message, MessagePack: tyfirc/tyfirc-msgpack.cpp. `insert` is `Insert`, `delete` is `Delete`,
--   with the unsigned arithmetic of its bounds test.
-- ScMessage: tyfirc/tyfirc-scmessage.cpp. `serialize` and `deserialize` are `Serialize` and
--   `Deserialize`; `frame` is what `WriteScMessage` sends.
-- AuthManager: tyfirc-server/tyfirc-authmanager.cpp. `setup`, `login`, `register` and `destroy`
--   are `Setup`, `Login`, `Register` and the destructor; the disk is a function from names to
--   contents.
-- Server: tyfirc-server/tyfirc-session.cpp, tyfirc-chatroom.cpp and tyfirc-ircserverapp.cpp. The
--   state `Server` holds the manager, the room, the sessions by number and the asynchronous
--   operations under way. Handlers has the handlers of a session, ChatRoom the room and the write
--   queue, App the steps of `io_service::run`: one operation completes, in any order, and its
--   handler runs. Accounts has the invariant on who is logged in, Writing the one on the
--   writes; Spoken puts them together. Order keeps, of a run, what was said in the room and what
--   was written to a session; Progress is on runs that write what waits.
--   Main is tyfirc-server/main.cpp.
-- Client: tyfirc-client/tyfirc-chatrw.cpp and tyfirc-ircclienapp.cpp, over a stream that is a
--   parameter, `Socket`. Talk, Chat, Newlines and Following put clients and server together;
--   Main is the console of tyfirc-client/main.cpp, with `std::cin` as `Cin`.
-- Db: tyfirc/db/tyfirc-repository.h, over a database session that is a parameter.
-- Older: nmake/tyfirc-server, the server without a chat room. Handlers is tyfirc-session.cpp, with
--   the `Register` of tyfirc-authmanager.cpp; Older and App are tyfirc-sessionlist.cpp and
--   tyfirc-ircserverapp.cpp. A step of `Step` is a handler of `io_service::run`, or one of the
--   writing thread (`write_step`): it takes up a message, or deals with one session. `write_round`
--   is the thread's loop for one message, with a bound on its passes, while the other thread changes
--   no state.
-- Tests: runs at concrete inputs.
--
-- Loops are structural but for two. `decimal` has fuel, whose eleven digits are enough for any
-- year of an `int`; `write_round` has a bound on its passes. `read_loop` goes as many passes as its
-- list of calls of `StopRead` is long, `write_lines` as many as its list of times. The
-- buffers of asynchronous writes hold the bytes that the source means to write, though its strings
-- are gone by then. Sessions are
-- numbers, and the life time of shared pointers is not modelled; neither are TLS, certificates,
-- what is printed, races inside a step of the older server's threads, the `SyncWriteMessage` and
-- the `on_message_` of tyfirc-server/tyfirc-session.cpp, which nothing uses, the binding of the
-- client's handlers, and the copies of the shared files under nmake.
mod Base
mod Tests
pub mod Misc
pub mod Time
pub mod Message
pub mod MessagePack
pub mod ScMessage
pub mod AuthManager
pub mod Server
pub mod Client
pub mod Db
pub mod Older
