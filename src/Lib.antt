-- ===== src/Lib.antt =====
-- A verification library for the backend dijex-api: its sessions, and the code that acts on remote
-- servers over SSH.
--
-- The program's parts. The middleware Auth (internal/transport/http/middleware/auth.go) lets a request
-- through if AuthService.Authenticate (internal/service/auth_service.go) accepts its bearer token; the
-- tokens stand in a table (internal/repository/postgres/auth_token_repository.go), where Login puts
-- them and Logout revokes them. Behind it, a service picks a server from the database, opens an SSH
-- connection and hands it to one of three packages:
--   internal/remotedeploy rolls an image out: Runner.Run probes for docker and runs seven steps.
--   internal/remotepurge removes an image and its containers: Runner.Run with five steps.
--   internal/remotelogs reads a container's logs: Collector.Collect with a bounded buffer.
-- RegistryService and ServerService (internal/service) keep the registries of images and the servers
-- in two tables (internal/repository/postgres), with secrets under AES-GCM (pkg/crypto/cipher.go), and
-- run these packages for a server that they have loaded and dialed.
-- Each package checks its parameters (ValidateParams), builds commands for a POSIX shell (shellQuote), runs
-- them in SSH sessions and turns the answers into a report.
--
-- The files:
--   Prelude, Prelude/*  shared names: tests on numbers, lists, signed integers.
--   Text, Text/*        Go strings as lists of bytes, with the functions of the package strings.
--   Regex, Regex/*      the expressions of regexp that the code uses, a matcher and its correctness.
--   Shell, Shell/*      shellQuote and quoteAll; Shell/Words reads a line as a POSIX shell does.
--   Auth/*              Types (domain/auth.go, employee.go), Tables (the queries), Service
--                       (auth_service.go), Middleware; Base64 and TokenText are the text of a token;
--                       Lookup, Grants, LoginTrace, LoginGrant, FirstUse, Sessions, Touch and Guard hold the
--                       proofs.
--   RemoteSession       runSSH and runSSHWithStdin over the parameter Remote.
--   RemoteSteps, RemoteSteps/*  statuses and reports of steps, findStep, markRemainingNotRun, allOK;
--                       Order is the specification of steps one after another, Sequence and Search
--                       hold lemmas.
--   RemoteDeploy/*      Types (types.go), Validate (validate.go), Commands and Steps (runner.go), Run
--                       (Runner.Run); Agreement, Order, Contract, CommandWords and Validate/* hold
--                       the proofs.
--   RemotePurge/*       the same for internal/remotepurge; Agreement, Order, Contract and Verified
--                       hold the proofs.
--   RemoteLogs/*        Types, Validate, Command, Tail (tailWriter), Collect (Collector.Collect).
--   Action, Action/*    methods over a shared state that may return an error of domain/errors.go, as
--                       a monad; Keeps has a rule for each way to build one.
--   Crypto/*            Base64, Cipher (cipher.go), Password (password.go), Token (TokenSigner of
--                       token.go); Coding, Secrets, Tokens and Passwords hold the proofs.
--   Platform, Platform/*  the tables, the parameter Platform, transactions; Rows (WHERE and UPDATE),
--                       Paging, Rules (checks of one field); Keys, Keeping, Checks and Pages hold the
--                       proofs.
--   Registry/*          Types (domain/registry.go, service/dto.go), Rows and Table
--                       (registry_repository.go), Validate, Views, Service and Connection
--                       (registry_service.go); Kept and Accepted hold the proofs.
--   Server/*            Types (domain/server.go), Forms (server_dto.go), Rows and Table
--                       (server_repository.go), Connector (its interfaces), Validate, Views, Service,
--                       Session, Remote, Images and Key (server_service.go); Kept, Accepted and Hosts
--                       hold the proofs.
--   Services, Services/*  all calls of the two services; Steps is the relation of what the database
--                       allows, and Every has sequences of calls; the others hold the proofs.
--   Tests/*             runs on concrete inputs.
--
-- How the model relates to the code. The SSH client, the context and the server are the record Remote
-- over a state of its own, an argument of every definition that runs a command: it may answer in any
-- way, refuse sessions and end the context. A function of the code that takes a pointer to a step
-- returns what it writes there. A panic is none. `strings.ToLower` is written out for ASCII; its
-- effect on a text with other characters is the argument unicode_lower. A Go int is an integer without
-- a bound, since the code adds none up but the length of a stream. Times, durations and logging are
-- left out. Every loop is over a list but that of Itoa, which runs on fuel: the number itself, and a
-- number has at most as many digits as its own value, or one.
--
-- The database is two lists of rows with the queries written out over them, goroutines of the last use
-- that are still to run, and the record Backend for the rest: it may refuse any query and any value
-- of a column, and gives the time, random bytes, UUIDs, SHA-256, bcrypt and what a TIMESTAMPTZ column
-- keeps of an instant. NULL and the empty text are one. The lifetime of a token is not negative. The dummy comparison of Login, which only takes
-- time, is left out.
--
-- Registries and servers stand in a second pair of lists, with the record Platform for PostgreSQL, the
-- clock, random numbers, AES-GCM and net/mail: it may refuse any statement and any value of a column. A
-- transaction that fails puts the rows back, also where its COMMIT is refused. The order of a list is an
-- argument. Statements of other connections do not come between those of one method. The trigger on
-- updated_at is part of each UPDATE. The offset of a page wraps at 64 bits. The clients of registries and
-- of SSH, and the collectors but that of the logs, are the records RegistryConnector and Connector and
-- arguments. A panic of a called package is the failure `panicked`.
--
-- Not modelled: the other tables and services, the rest of the HTTP layer, and the packages that only
-- read facts (remoteinfo, remotedocker, remotesystemd, sysinfo), which are I/O and parsing for the
-- most part.
pub mod Prelude
pub mod Text
pub mod Shell
pub mod Regex
pub mod RemoteSession
pub mod RemoteSteps
pub mod RemoteDeploy
pub mod RemotePurge
pub mod RemoteLogs
pub mod Auth
pub mod Action
pub mod Crypto
pub mod Platform
pub mod Registry
pub mod Server
pub mod Services
pub mod Tests
