-- ===== src/Lib.antt =====
-- MyChat: a model of the instant-messaging backend and its correctness.
--
-- A Gateway takes requests over HTTP and WebSocket and calls five services: users, friends, groups,
-- messages and push. The services keep their rows in PostgreSQL through ODB repositories. A request
-- travels between processes as a frame of the protobuf codec. A stored message is pushed to the
-- receiver's sessions, and marked delivered once a session has taken it.
--
-- The parts and their files:
--   Storage    the object database behind the repositories (odb::database), which the repository
--              does not contain: an interface with the transactions built on it. Storage/Laws,
--              Storage/Replace and Storage/Paging say what the transactions do to the rows;
--              Storage/Memory and Storage/Sorting are an implementation in memory.
--   User       services/user/user_service.cpp, user_repository.cpp, services/odb/user.hpp, with hash and
--              verify of Password for the passwords, which are bytes.
--   Friend     services/friend/friend_service.cpp, friend_repository.cpp, services/odb/friend.hpp.
--   Group      services/group/group_service.cpp, group_repository.cpp, services/odb/group.hpp;
--              Group/Messages is group_message_service.cpp and group_message_repository.cpp;
--              Group/Admission says when the services accept a call.
--   Message    services/message/message_service.cpp, message_repository.cpp,
--              services/odb/message.hpp.
--   Push       services/push/fanout_policy.cpp and push_runtime.cpp.
--   Codec      common/network/protobuf_codec.cpp.
--   Password   services/user/password_hasher.cpp, over PBKDF2 and random bytes as parameters.
--   Router     gateway/router/router.mgr.cpp: Router/Http and Router/Service are the two tables, over
--              what ConfigManager reads; Router is RouterManager.
--   Redis      the commands of RedisClient (common/database/redis/redis_mgr.hpp) on hashes and sets, and
--              in Redis/Texts those on texts, with their expiry: two interfaces. Redis/Memory and
--              Redis/Clock are implementations in memory.
--   Json       what the Gateway uses of the JSON library, as an interface; Json/Tokens implements it.
--   Auth       gateway/auth/multi_platform_auth.cpp: Auth/Lifetime, Revocation and Rotation follow
--              one refresh token, Auth/Steps and Auth/History any order of the operations; Auth/Access
--              and Auth/Blacklist are the access tokens.
--   AuthManager  gateway/auth/auth_mgr.cpp, with its mutex.
--   Connections  gateway/connection_manager/connection_manager.cpp: Connections/Adding, Removing,
--              Kicks and Queries follow its operations, Connections/History any order of them, and
--              Connections/Conflicts the cases in which its keys do not tell sessions apart.
--   Prelude    what the parts share: lists, membership, integers, binary digits.
--
-- How the code is modelled. A repository or service method is a function from the state of the
-- database to its result and the next state; it keeps the method's name. Reads leave the state as
-- it is. An odb::exception is `none`; a transaction that throws before its commit leaves the state
-- as it was; a method that collects rows keeps them when the commit throws. A query gives its rows
-- at once. The error codes of a result are constructors, and the texts beside them are left out.
-- The clock is an argument; an operation reads it once. get_profile_by_uid of the user service is
-- an argument of the services that call it. Each service call is one step: two calls overlap only
-- in Friend/Conflicts, which runs the parts of two calls in an interleaved order. A Redis command
-- that throws ends the operation that calls it, with the changes of the commands before it.
--
-- Integers. `int64_t` values are integers, times only compared; ids are natural numbers, which the
-- database hands out. Password writes out the range of `long` and the cast to `int`, which no other
-- part needs. The codec writes out the wrap-around of `uint32_t`, and a frame is shorter than 2 ^
-- 31 bytes. All loops are structural recursion; only Password.decimal has fuel, the ten digits that
-- an int can have.
--
-- Assumptions on code outside the repository are fields of records: Database, Table, Eraser and
-- Sorter in Storage, GroupTables in Group, UserTable in User, Protobuf in Codec, Redis and Texts in
-- Redis, Json (the text of an object parses back to it), Jwt in Auth/Access and TokenJwt in
-- AuthManager. DerivesKeys in Password/Verify says that PBKDF2 gives 32 bytes. Each has an instance
-- in a module Tests. Theorems about reads that the code lets fail silently say that the reads
-- succeed, and those about connections and tokens that Redis answers (Answers). The comparison of
-- lifetimes in floating point is an argument.
--
-- Not modelled: search by SQL LIKE, texts that are not UTF-8, which the JSON library refuses to
-- write, asynchronous I/O such as that of common/network/tcp_session.cpp, and the generated
-- protobuf, gRPC and ODB code.
pub mod Prelude
pub mod Storage
pub mod Auth
pub mod AuthManager
pub mod Codec
pub mod Connections
pub mod Friend
pub mod Group
pub mod Json
pub mod Message
pub mod Password
pub mod Push
pub mod Redis
pub mod Router
pub mod User
