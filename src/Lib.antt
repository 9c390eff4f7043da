-- ===== src/Lib.antt =====
-- Models of native plugins of this repository: libraries that a host loads into a script engine and
-- calls on the script thread, and that keep threads of their own for work that blocks.
--
-- Base is shared: Boolean tests, lists, bytes, decimal numbers, the tables that stand for the keyed
-- containers, and the properties of a plain object of the engine.
--
-- Pam is pam/src/module.cpp, a plugin that checks passwords. Pam.Types has its structs. Pam.Conversation
-- is conv_func, the callback that answers the prompts of PAM, with erase_password. Pam.Worker is the
-- body of worker_loop for one request. Pam.Script is js_authenticate, pam_update and pam_shutdown.
-- Pam.System puts the script thread and the worker together as steps that may come in any order; its
-- children hold the invariant, that each step keeps it, and what follows from it.
--
-- Hypr is hypr/src/module.cpp, a client of a window manager. Hypr.Types has its structs. Hypr.Socket is
-- connect_unix, read_line and the two loops of the command worker. Hypr.Events is event_loop with its
-- queue. Hypr.Subscribers is js_on, js_off and dispatch_events; its child Ownership also counts the
-- references that they and hypr_shutdown give back. Hypr.Commands is js_connect,
-- build_sock_path and js_json. Hypr.Jobs is enqueue_job_promise, its workers, the settling half of
-- hypr_update_callback, and the settling part of hypr_shutdown.
--
-- Sqlite is sqlite/src/module.cpp, which runs SQL for scripts. Sqlite.Types has its structs.
-- Sqlite.Handles is js_open, js_open_memory, js_close and the closing at the shutdown. Sqlite.Worker is
-- js_exec, js_query, worker_thread_body, scriptUpdate and scriptShutdown.
--
-- Process is process/src/module.cpp, which runs child processes. Process.Types has its structs.
-- Process.Launch is js_spawn and js_exec, Process.Control the functions of the objects that js_spawn
-- returns, Process.Update is process_poll_io and process_update_callback, Process.Shutdown the shutdown
-- of the script, and Process.Environment js_get_env and js_env. Process.System puts the calls and the
-- update together as events that may come in any order; its children hold the invariant, that each
-- event keeps it, and what follows from it. Process.Output follows the bytes from the pipes to the
-- promises.
--
-- Ws is ws/src/module.cpp, the plugin of WebSockets. Ws.Types has its structs. Ws.Sockets is ws_create, the
-- functions of the object that it returns, the use of the network system, and the callback of the
-- client that queues a message. Ws.Drain is ws_drain, ws_update_callback and the shutdown, with the runs
-- in which scripts, messages and drains follow one another.
--
-- Http is http/src: Http.Types the structs of Http.hpp, Http.Url the pattern of URLs in Http::worker,
-- Http.Worker the rest of one round of it, Http.Values the reading of bodies and parts in module.cpp, and
-- Http.Requests the promises there, from js_request over the queues, Http::drain and request_callback to
-- settle_request and cleanup_http_context.
--
-- Dbus is dbus/src: Dbus.Types has the types and values of messages, Dbus.Marshal is marshal.hpp, Dbus.Calls
-- and Dbus.Service are service.hpp with the queueing of a call by the pump and the part of dbus_shutdown
-- about calls in module.cpp. Dbus.Service uses Dbus.Marshal for the arguments of answers and signals.
--
-- State is a record that is passed on. What a plugin does to the engine, and to buffers that held a
-- password, is written to a log of effects; what a string that was moved from still keeps is recorded as
-- the move. A text given to the engine is the bytes that are handed over; the engine may read bytes
-- that are not UTF-8 as others, which the objects of headers and variables take into account, and
-- may cut the text of an error. A settling function or a callback is a number, its pointer.
-- What other code gives back is a parameter: the PAM library is a record of functions, the JSON parser
-- a function, the reports of SQLite on a job a record, the answers of the kernel to the calls on a
-- socket a list, and what a script does in a callback a function on the table of subscriptions. For
-- child processes they are the answers to pipe and fork for a launch, the blocks and the status that a
-- round of reading gives for a child, the answers to waitpid and the clock while the shutdown waits, and
-- getenv, and for env() also how the engine reads bytes as a text. For Sqlite it is also
-- whether a database is busy when it is closed. For Ws they are what the callbacks do while they run, for Http the client with the build's
-- support of https and what the host makes of a task, for Dbus libdbus's tests of names and its reading
-- of signatures, and what a handler does while it runs.
--
-- A step is what one thread does while it holds a mutex, or between two such regions; the worker of a
-- Hyprland command is one step, from its start to the push of its result. The system call or library
-- call in it touches no state of the models that another thread writes; the database that a job of
-- Sqlite runs on may be closed meanwhile, and the reports of SQLite are then still a parameter.
--
-- Request numbers, and those of sockets and invocations, are unsigned 32-bit integers and wrap around here
-- as they do there. The theorems that count promises hold until the first number would be used again, and say so. Loops
-- are recursion on the container that they walk or on the list of the kernel's answers, and a loop that
-- reaches the end of that list still waits, which is its own result. Two definitions take fuel. The
-- waiting of the shutdown for a child sleeps for ten milliseconds in a round and gives up after 500, so
-- that 51 rounds are enough; a number, of 64 bits at most, is printed with 20 digits, which 2^64 has at most. The bounds are those of
-- the code: 16 and 64 pending promises, 2048 events, lines of 65536 bytes, replies of four mebibytes,
-- waits of 200 to 5000 milliseconds. The identifiers of Http are 64-bit integers.
--
-- Not modelled: the registration of modules with the engine, the `JSContext*` that is stored beside a
-- promise and never read, errno, log output, and engine calls that run out of memory. Of Hypr, also the
-- list of active sockets, the wake-up of blocked threads by the shutdown, and the checks of the
-- arguments of `on`, `off`, `send` and `json`. Of Sqlite, also the reading of a column, its conversion
-- on delivery, and the checks of arguments. Of Process, also the child's side of a fork, the calls on
-- files, js_drain and js_read with the other functions by number, which no script can reach, and
-- listeners that call the plugin back while an update calls them. Of Ws, also a callback that drains again
-- and the threads of the client, which is a copy of another project. Of Http, also the Windows branch, the
-- reading of headers, fnv1a, and the destructor. Of Dbus, also connecting, with the dropping of
-- the calls of a connection that was lost, outgoing calls, signal subscriptions and the decoding of
-- messages. The ffmpeg plugin and the sdk are not modelled.
pub mod Base
pub mod Pam
pub mod Hypr
pub mod Sqlite
pub mod Process
pub mod Ws
pub mod Http
pub mod Dbus
