-- ===== src/Lib.antt =====
-- A model of remote-console, the OpenCHAMI service that gives access to the serial consoles of the
-- nodes of a cluster, and theorems about it.
--
-- The program. The service asks the state manager (SMD) for the nodes that have a console
-- (internal/nodes), writes the configuration of conmand from them and from their credentials and runs
-- conmand (internal/conman), watches the credentials in a secure store (internal/creds), gathers the
-- logs of the consoles in one file and has logrotate rotate them (internal/logs), and serves clients
-- over HTTP and web sockets (internal/console). cmd/remote-console starts this and runs four loops: the
-- node loop, the credentials loop, the rotation loop and the conman loop. They meet in the node table,
-- the conman service and the logs service, each behind its own mutex.
--
-- The files.
--   Prelude    lists, byte strings, maps, integers, errors and the functions of Go's library that the
--              program calls (strings, strconv, fmt.Sscanf, path/filepath, bufio lines). A string is
--              the list of its bytes; map[string]V is an association list with get, put and delete;
--              an error is a message, a wrapped error, or one of the values that errors.Is looks for.
--   Nodes      internal/nodes: Smd the query, Discovery from component endpoints to nodes, Registry the
--              node table and its refresh, Ids the loop that collects the ids, Table the node
--              table as a finite map, a quotient of the association lists.
--   Conman     internal/conman: Entries and ConfigFile the configuration file, Process the process
--              and its signals, Zombies the scan of the output of ps and the waits.
--   Creds      internal/creds: Storage the store, Passwords their retrieval and comparison, Keys the
--              console keys, Monitor CheckForUpdates.
--   Logs       internal/logs: AggLog the aggregation log, Tails which console logs are tailed, Rotation
--              the state file of logrotate, RotateConf its configuration, Service the check.
--   Console    internal/console: Handlers the handlers that answer at once, Sessions at most one
--              interactive session per node, Interactive such a session, LastLines and Tail the tail
--              session, Tail.Session and Tail.Script its goroutines, WebSocket the outbound messages and
--              the close frame, Auth the key set and the tokens, Router the routes.
--   Service    cmd/remote-console: Config the configuration and its validation, Startup the fetch of the
--              key set and the routes, Loops the node, the credentials and the rotation loop, ConmanLoop
--              the conman loop, Run a run of the program from its parsed configuration to its exit code.
-- A module with proofs stands below the module that it is about (Nodes.Registry.Exact, say), and
-- Examples in each part runs the definitions and applies the theorems at small inputs.
--
-- Names. A Go function fooBar is foo_bar here, a type keeps its name, a field is in snake case. A
-- method takes its receiver first and gives the new one back. An operation that may panic gives an
-- Option or a type with a constructor panicked.
--
-- State and time. Each operation under a mutex is one step. Where goroutines meet, the theorem is about
-- every interleaving: a step relation and what can be reached by it (Conman.Process.Single,
-- Logs.AggLog.Open, Console.Sessions.Exclusive, Console.WebSocket.Delivered, Console.Tail.Running,
-- Service.Loops.Tailed). A call during which others go on stands in parts, one for each
-- stretch between.
--
-- Parameters. Code of other modules and the operating system are arguments, one record for each place
-- that uses them: Nodes.Smd.Http, Conman.ConfigFile.ConfigIo, Conman.Process.Launch,
-- Creds.Storage.Secrets, Creds.Keys.KeyIo, Creds.Passwords.Attempt, Logs.AggLog.AggIo,
-- Logs.RotateConf.ConfFile, Logs.Service.Rotate, Console.Tail.Sending, Console.Auth.KeyServer,
-- Console.Router.Framework, Service.Loops.NodesTick and RotateTick, Service.ConmanLoop.ConmanRound,
-- Service.Run.StartIo and StopIo. What a theorem asks of them is among its hypotheses.
--
-- Bounds. An int is an integer without the wrap-around of 64 bits, except in strconv.Atoi, which keeps
-- its range; Console.Tail.Session.kilobytes keeps that of its uint16. The loops are structural; the
-- retries count down from the number that the source gives, and the decimal digits of n have n + 1 steps
-- of fuel, which Prelude.Decimal shows to be enough. Unicode spaces and letters are not told from other
-- bytes.
--
-- Not modelled: the logger, the command line, the code of chi and of the token libraries, the HTTP
-- server, the rate limiter's delays, the tail library, and deadlines.
pub mod Prelude
pub mod Nodes
pub mod Conman
pub mod Creds
pub mod Logs
pub mod Console
pub mod Service
