-- ===== src/Lib.antt =====
-- Leadertask: a server of goals and tasks, written in C++ on the framework userver.
--
-- The program. A user signs up and logs in (src/views/users/signup.cpp, login.cpp); the login gives a token,
-- which a checker (src/auth/jwt_auth_checker.cpp) reads before the handlers behind it. The checker puts the
-- user's id into the context of the request. Six handlers behind it first ask the token bucket of their file
-- and then work on the repositories (src/repositories): users and tasks stand in PostgreSQL, goals in MongoDB.
-- Three storages in memory (src/tasks_storage.hpp, users_storage.hpp, goals_storage.hpp) are the older form
-- of the repositories.
--
-- The files.
--   RateLimit     `CheckRateLimit` of the six files, and its histories: History counts the calls let through,
--                 Bounds, Refill and Invariant prove what the bucket gives
--   Number        `std::stoll`, `std::to_string` and `ParseInt` (src/views/tasks/update.cpp) on texts;
--                 ObjectId is about a Mongo object id that is read as a number
--   Storage       the storages in memory, a module for each class: its record holds the maps and `next_id_`,
--                 and each method is a function of the same name, in small letters with underscores.
--                 Tasks/Spec, Users/Spec and Goals/Spec say what each class promises, as one list of records,
--                 and the Simulation below each relates the class to it. Counter and Ids are about the ids that
--                 the three give
--   Substring     `std::string::find` and LIKE
--   Definitions   the structs that the build makes from docs/definitions
--   Services      what the program calls: the tables of schema.sql behind their statements, the collection of
--                 goals, the tokens of jwt-cpp. Each is a record of operations with the documented behaviour
--                 as laws; the modules above them take it as a parameter
--   Repositories  the three repositories, a function for each method
--   Http          requests, responses, and outcomes of a handler: a reply, or an exception
--   Views         the handlers, one module for each file of src/views: `handle` is the method
--                 HandleRequestJsonThrow, built from one function for each stage between two early returns.
--                 Limited is the part that six of them share; Gated shows that these six have its form
--                 Tasks/Statuses and Users/Histories run histories of requests, in any order, each endpoint
--                 with limits of its own; Tasks/Visible follows a task from one request into the next,
--                 Tasks/Answers is about the requests that are answered with a value,
--                 Tasks/Update/Swapped about the row that the update of a status changes
--                 Hello is the greeting of src/views/hello and src/greeting.cpp
--   Auth          the token checker; Login and SignUp follow a token from the handlers to it
--   Server        the whole server (src/main.cpp): Defs has the components that main registers, with what they
--                 are built on, Dispatch the handlers with their repositories and the checker before them.
--                 Steps is an abstract specification over the rows alone, Refines and Runs relate the handlers to
--                 it, Invariants, Growth and Lasting follow from it. Access is about the checker,
--                 Rates about the limits.
--                 Threads splits the creation and the update of a task into their two calls to the databases
--                 and lets calls of other requests come between
--   Base          shared names, texts, integers, results, and maps as association lists
--   Tests         services in memory, and runs on them
--
-- The model. A handler takes its services, the clock readings, the outcome of parsing the body, the user of
-- the context and its state, and gives an outcome with the new state. A method under a mutex is one step. A
-- `std::unordered_map` is a list of entries; the order in which it is walked is a parameter, any permutation
-- of the entries, and a result that depends on it is described up to order. Texts that the program walks are
-- lists of character codes. An `int64_t` is an integer; where the range matters it is written out
-- (`std::stoll`, and the ids of a login), and the counters `next_id_` are natural numbers, with their range
-- in Storage/Ids. The amounts of tokens are whole numbers, which the doubles of the source hold exactly.
-- Clock readings are nanoseconds. The loops are structural; `digits` alone runs on fuel, one more than the
-- number, and the round trip proves that to be enough.
--
-- The framework. Which handler serves a path, whether a handler goes on after the checker's answer, and how
-- components are found by name is the framework's part: a request of the model comes with its handler, and
-- the going on is a parameter whose law is the documented one.
--
-- Not modelled: the parser and printer of JSON that the build makes, logging, src/db (its cluster is used by
-- no handler), and the scripts, settings and documents beside src, but for the `auth` entries of
-- configs/static_config.yaml. A slave of PostgreSQL may lag behind its master, and no law says how far.
-- After an exception of a database it may not be known whether the statement was carried out: the laws of
-- the services leave both open, and a violated constraint alone means that it was not. Each call of a
-- database is one step; a handler that makes two of them is interleaved with others in Server/Threads.
pub mod Auth
pub mod Base
pub mod Definitions
pub mod Http
pub mod Number
pub mod RateLimit
pub mod Repositories
pub mod Server
pub mod Services
pub mod Storage
pub mod Substring
pub mod Tests
pub mod Views
