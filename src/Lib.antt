-- ===== src/Lib.antt =====
-- The verification library of ski: an SSH certificate issuer (the package ski under src/ski) and the
-- command ski-authorize that hosts run for a login (packages/ski-authorize). A user proves an identity
-- to the issuer; the issuer reads the user's groups, signs a certificate of 25 hours whose principals
-- are the user and its groups, puts it into the user's agent and records it; a host decides offline
-- which of the signed groups lets the user in.
--
-- Policy                 src/ski/policy.py: canonical names and principals, on any Python value
--   (Policy/Values) that a caller may pass. Policy/Shape says what accepted principals look like.
-- Identities             src/ski/identities.py, its store's operations in Identities/Store, and
--   Identities/Repository for src/ski/identity_persistence.py: users, groups and memberships. An
--   operation takes the tables and gives its result and the tables after it. Identities/Steps and
--   Identities/Reachable hold the invariant of the tables over all operations.
-- State                  src/ski/state.py on the tables of State/Tables, which are the schema of
--   src/ski/migrations.py and the statements of src/ski/ca_persistence.py. A column holds any value, so
--   that what is read is checked as the source checks it. State/Exec is the monad of calls that change
--   the tables and may raise; `transaction` rolls back. State/Validation, State/Records and
--   State/Verify are the validators, the records read from rows, and `verify_ca_state`; State/Json is
--   the JSON of a list of strings; State/Events has the events and their filter. State/Ledger is the
--   abstract ledger of at most one CA; State/Refinement, State/Founding and State/Recording relate the
--   two, and State/Reachable holds what the calls reach from a new database. State/Readback and
--   State/Reread are about reading what was recorded.
-- Issuance               src/ski/credentials.py: certificates, commits and the record of a failure.
-- Injection              src/ski/injection.py: `handle`, as the steps it goes through, and in
--   Injection/Adapter the ownership test and the cleanup; Injection/Marks is about what the test says.
--   The agent is a record of operations that may do and raise anything. Injection/Reachable joins
--   `handle` with the state.
-- Server                 src/ski/server.py: the authentication callbacks of one connection, which asyncssh
--   may make in any order (Server/History, Server/Laws), on any identity store or on that of Identities
--   (Server/Sqlite); Server/Session is the session and Server/Listener the listener with its sockets.
-- Requests               src/ski/request_processing.py: an admitted request, what it emits and how its
--   session ends (Requests/Laws). Journal is src/ski/journal.py.
-- Ca                     src/ski/ca.py: loading the active CA (Ca/Load), and in Ca/Install the files of a
--   fresh one, on a disk whose answers are a parameter, so that every operation may fail at every point.
--   Ca/Staging, Ca/Placing and Ca/Laws follow the files, Ca/Writing and Ca/Contents what is in them;
--   Ca/Initialize joins them with the registration, for initialize_ca of src/ski/ca_commands.py.
-- Configuration          src/ski/configuration.py and find_environment_file of src/ski/environment.py;
--   Configuration/Settings says what each validator lets through, Configuration/Laws the whole.
-- Runtime                src/ski/runtime.py: in Runtime/Lifecycle the segments of start, reload, close
--   and request_scope between their awaits. Runtime/Steps lets them run in any order;
--   Runtime/Starting, Runtime/Reloading and Runtime/Draining keep the invariant, with the tasks of a
--   shutdown in Runtime/Tasks, and Runtime/Ending is about its end.
-- Service                src/ski/notify.py and src/ski/secure_files.py.
-- Host                   packages/ski-authorize/src/ski_authorize: cli.py; Host/Policy is policy.py,
--   Host/Certificate certificate.py with base64 and UTF-8 below it, Host/Authorization
--   authorization.py. Host/Issued joins both packages.
-- Base                   shared helpers: tests on numbers, equality as an instance, lists, orders,
--   integers, texts as lists of code points, Python's int, str and dict, results and conditions on them,
--   and the rulesets of tests and memberships.
-- Examples               runs on concrete values.
--
-- Numbers are unbounded, as Python's are; the OverflowError of sqlite3 for an integer beyond 64 bits is
-- left out. Bounds that the source tests (a serial below 2^64, the fields of the wire format) are
-- written out. The loop over the principals of a certificate runs on
-- fuel, one more than its bytes; all other loops are structural. The five turns of `handle` are a
-- number that counts down, and what a turn takes from outside (serial, clock, key) is a function of it.
--
-- Parameters stand for code outside the repository: asyncssh (importing and signing keys, the agent),
-- tomllib, argon2, pyotp, systemctl and the file system's answers. Exceptions that the source does not
-- catch, such as cancellation, and errors of a closed or broken database are left out; so are errors of
-- the sinks of events and of the channel. Of the arrays that json.loads reads, State/Json reads those
-- that the source writes, and refuses others, such as one with blanks or escapes. A directory that
-- find_environment_file joins with a name is empty, or as pathlib normalises it. Times are whole
-- seconds, and usernames and group names in the identity tables are texts. Of the files of the CA, the
-- content counts and not the mode; unlinking raises nothing, and what key readers and key generators
-- raise is one error. A number stands for a database that the runtime opened, and for its listener; a
-- start whose listener is refused closes no more than its database, since the listener closes its own
-- sockets. The requests that a shutdown cancels after its grace period leave the request scope like
-- others; whether they do so in time is not said.
--
-- Not modelled are the opening of the database file with its lock, its schema version and the host key
-- (src/ski/state.py, host_persistence.py), the signals (control.py), the listing commands of
-- ca_commands.py, load_environment of environment.py, identity_commands.py and cli.py: argument
-- parsing, printing, and calls of the other parts.
pub mod Base
pub mod Policy
pub mod Host
pub mod State
pub mod Service
pub mod Identities
pub mod Issuance
pub mod Injection
pub mod Ca
pub mod Configuration
pub mod Journal
pub mod Requests
pub mod Runtime
pub mod Server
pub mod Examples
