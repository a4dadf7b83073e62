-- ===== src/Lib.antt =====
-- Mini OJ: the backend of an online judge, in C++ under backend/. A client signs up and logs in over
-- HTTP, reads problems and submits sources; a submission is compiled, run on the test cases of its
-- problem, and given a verdict. Administrators edit the problems.
--
-- The parts, the files that model them, and how source and model correspond:
--
-- - Base, Base/Tests, Base/Lists, Base/Result, Text: Boolean tests, lists over native numbers, C++
--   exceptions as values, byte strings. A `std::string` is the list of its bytes.
-- - Types (backend/include/types.hpp, backend/src/util/types.cpp): the shared structs and enums.
-- - Judge/Diff (backend/src/judge/diff.cpp): `outputsMatch` is `outputs_match`.
-- - Judge/Runner (runner.cpp): `runBinary` is `run_binary`; `writeAll` and `drainPipe` are in
--   Judge/Runner/Pipes. What the operating system answers (pipes, fork, write, read, the start of threads,
--   waitpid, the clock, the peak memory) is the argument `Host`. A call of write or read may block without
--   end, and then the run has no result (`none`).
-- - Judge/Compiler (compiler.cpp): `compileSource` is `compile_source`, over `CompileHost`, with the
--   wait loop and the reading loop of the runner.
-- - Judge/Pipeline (pipeline.cpp): `runPipeline` is `run_pipeline`, composed of the three above as the
--   code composes them. A result is a value, an exception, or none if some call blocks without end; what
--   a host has to do for it to return is `IsResponsive`.
-- - Judge/WorkerPool (worker_pool.hpp, worker_pool.cpp): the threads as a step relation whose steps are
--   the critical sections under the mutex; the callers of `submit` and `shutdown` take steps too.
-- - Auth/Validator, Auth/Session, Auth/Password (backend/src/auth/): `validateUsername`,
--   `validatePassword`, `generateSessionId`, the cookie texts, `hashPassword`, `verifyPassword`. The
--   random device, getrandom(2) and crypt(3) are arguments; what crypt(3) documents is `IsCrypt`.
-- - Http/Message: what is used of cpp-httplib's requests and responses, and of a JSON library, as
--   records; both libraries are outside the repository's own code.
-- - Http/Cookie (backend/src/http/middleware.cpp), Http/RateLimiter (rate_limiter.cpp),
--   Http/ClientKey and Http/RateLimit (rate_limit.cpp), Http/Csrf (csrf.cpp), Http/Requests
--   (admin_request.cpp), Http/Requests/Submission (submission_request.cpp). Double precision is the
--   interface `Double`, with the laws that a theorem needs as a record of hypotheses.
-- - Db/Pool (backend/src/db/pool.cpp): the connection pool, as a step relation; the answers of the
--   MySQL client are the argument `Calls`.
-- - Base/Effect: code that changes a state and may throw, with `>>=` for its sequence and `attempt` for
--   try and catch.
-- - Db/Client: the MySQL client library and its server as an interface (`Mysql`), the state that a
--   request sees of it (`Client`), and a log of what is sent, which no code reads. Db/Client/Plain has
--   rules for what a piece of code adds to the log, Db/Client/Lookup what a look-up has read.
-- - Db/Users (backend/src/db/user_dao.cpp), Db/Problems (problem_dao.cpp; its rows in Db/Problems/Rows,
--   its SQL texts in Db/Problems/Statements), Db/SeedLoader (seed_loader.cpp): one function per operation,
--   named as in the source, such as `create_problem` for `createProblem`.
-- - Http/AdminAuth (backend/src/http/admin_auth.cpp): `checkAdminAuth` is `check_admin_auth`.
-- - Http/Dto (problem_dto.cpp, admin_dto.cpp, submission_dto.cpp): the `toJson` functions.
-- - Http/Handlers and its modules Auth, Public and Admin (handlers_auth.cpp, handlers_public.cpp,
--   handlers_admin.cpp): one function per handler, composed of the guards, parsers, data access and judge
--   above. A handler ends with a response or with the exception that leaves it.
-- - Http/Router (router.cpp): the three guards in front of the routes, and the routes in their order.
-- - Scripts/Seed (backend/scripts/seed.cpp) and Scripts/ResetForTests (reset_for_tests.cpp): the programs
--   that fill the database.
-- - Logger (backend/src/util/logger.cpp): the lines that are written; the code above does not call it.
-- - Signals (backend/src/util/signal.cpp): the thread that waits for a signal, and the signals that
--   interrupt it.
-- - Config (backend/include/config.hpp, backend/src/util/config.cpp): `AppConfig::load` is `load`, over
--   an environment and the lines of a file.
--
-- Tests stand in modules called Tests; they run the models on concrete input.
--
-- Bounds and fuel. Numbers are natural numbers; where the source narrows a number the model takes it
-- modulo 2 ^ 32 or 2 ^ 64. The wait loop runs on fuel limit / 5 + 2, which is enough since each round
-- sleeps 5 ms; the readers of random bytes and of cookies run on a fuel above the length that is left,
-- and every round takes a byte at least. Subtractions on unsigned numbers stand behind the tests that
-- keep them from wrapping.
--
-- Not modelled: `main`, which is wiring; the removal of work directories; the code of the child processes
-- but for the limits that they set; the memory orders of atomics, since what threads share is under a
-- mutex, but for the flag of a signal, whose tests and settings are steps in one order; the freeing of
-- MySQL results. A handler's task runs on the pipeline directly, since the worker pool has a model of its
-- own; a request whose judging blocks without end is never answered, and the handlers do not cover it
-- (`Judging`). The browser code, the test server and the tests are not part of the backend.
pub mod Base
pub mod Text
pub mod Types
pub mod Judge
pub mod Auth
pub mod Http
pub mod Db
pub mod Scripts
pub mod Config
pub mod Logger
pub mod Signals
