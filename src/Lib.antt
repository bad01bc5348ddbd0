-- ===== src/Lib.antt =====
-- Verification library of UDPBoardcast, a library that finds servers by UDP broadcast and exchanges
-- requests, answers and pushed messages with them over TCP.
--
-- A client and a server each run one libuv loop. A caller's thread hands the loop a task and sleeps
-- on the task's semaphore until a callback of the loop ends the task.
--
-- Files, with the code that each models:
--   Proto, Proto/*        Communication/core/comm_protocol.h and comm_protocol.cpp: the packages
--                         (CommPkg is comm_pkg_t), their bytes, proto_build_package,
--                         proto_parse_package and proto_check_pkg.
--   Stream, Stream/*      the first half of _read_content_process in Communication/core/comm_core.cpp:
--                         receive joins the cache and one read, parse_all is the parse loop and
--                         store_rest the new cache. Decodes says what a stream stands for.
--   GenId, GenId/Cycle    Communication/core/gen_id.cpp.
--   Errors                include/internal/ssnet_err.h, common/uv_err_cvt.cpp, and the choice of a
--                         task's message in comm_core.cpp.
--   Table, Table/*        std::map with unsigned keys.
--   ClientLoop            client_loop_t of Communication/core/comm_res.h with the objects behind its
--                         pointers, and the cl_* functions of comm_res.cpp.
--   ClientLoop/Tasks      _cl_finish_task, write_cb and timer_cb of comm_core.cpp.
--   ClientLoop/Connect    _do_connect and connect_cb.
--   ClientLoop/Read       the client's half of _read_content_process, read_cb and close_cb.
--   ClientLoop/Async      async_cb and _client_shutdown.
--   ClientLoop/Invariant, Finish, Conclude
--                         the invariant of the client loop and the rules by which the proofs about
--                         its handlers go.
--   ClientLoop/Written, Timeout, Answer, Submit, Lost, Connected
--                         the theorems about write_cb, timer_cb, the packages, async_cb, read_cb and
--                         connect_cb.
--   ClientLoop/Clock, Links
--                         the timers of a task that ends, and the connection table against the memory.
--   ClientLoop/Shutdown, Keeps, Handles, Closing
--                         _client_shutdown: its loop over the tasks, those over the handles, and
--                         async_cb with the task that closes the client.
--   Discovery             boardcast_package_t and make_startup_pkg of AutoDiscover/boardcast, the sockets
--                         of boardcast_common.cpp, and socket_env_t with its semaphore and thread.
--   Discovery/Client, Server, Model
--                         boardcast_client.cpp, boardcast_server.cpp and AutoDiscover/discover.cpp.
--   Discovery/Sockets, Reliable
--                         what the creation of a socket leaves, and starts that do not fail.
--   Discovery/ClientRun, ServerRun, StartStop, Switch, StartFailed,
--                         Handshake
--                         the theorems about start and stop, the run type and the threads' rounds.
--   ServerLoop            server_loop_t of comm_res.h with the objects behind its pointers, the sl_*
--                         functions of comm_res.cpp and _sl_finish_task.
--   ServerLoop/Requests   _server_handler_req, the server's half of _read_content_process, svr_work_cb.
--   ServerLoop/Async      the server's cases of async_cb and write_cb, _do_write, _do_push,
--                         _server_shutdown with threadpool_uninit.
--   ServerLoop/Listen     listen_cb and the server's cases of read_cb and close_cb.
--   ServerLoop/Calls, Startup
--                         ssn_push, ssn_startup_server and ssn_shutdown_server, with the start and the
--                         end of the loop.
--   ServerLoop/Life, Rows, Changes
--                         where a task is during its life, the table against the memory, and loops
--                         over connections.
--   ServerLoop/Accepted, Full, Responses, Push
--                         a request that the pool takes or refuses, a response, a push.
--   ServerLoop/PoolEnd, Shutdown, Closing
--                         the shutdown of the server.
--   ServerLoop/Steps, Sound, Sound/*
--                         what happens to a server until it is closed, as steps, and what holds in
--                         every state that it reaches.
--   Rpc, Rpc/*            a request from the client through the server and back.
--   Interface, Interface/*
--                         the client's functions of Communication/comm.cpp and of
--                         Communication/async/async_task.cpp, before and after their wait for the task.
--   Client                what happens to a client until it is closed, as steps: the loop's callbacks
--                         and the calls of ssn_send and ssn_connect.
--   Client/Sound, Client/Sound/*
--                         the invariant of these steps: Over, Rules and Parts are the rules for it,
--                         and Branches, Takes, Writes, Timers, Settles,
--                         Joins, Packages, Reads and Calls the steps.
--   Client/Serves, Early, Closing
--                         the callbacks that are due, an answer that comes early, and the shutdown of
--                         a client that has run.
--   ThreadPool            third/threadpool/threadpool.c, over the list that the queue of
--                         third/queue/Gqueue.c holds.
--   ThreadPool/Threads    the threads of the pool in thread_func, threadpool_push_work and
--                         threadpool_uninit, as steps between threads and the pool's owner.
--   ThreadPool/Sums, Moves, Account, Cancel, Runs
--                         where the jobs and the units of exit_sem are, step by step.
--   ThreadPool/Once, Awake, Lost, Ends
--                         the callbacks of a job, the wakeups, and the end of the pool.
--   Gqueue, Gqueue/*      third/queue/Gqueue.c: the linked queue with its nodes in memory, and the list
--                         that it stands for.
--   ConnReq, ConnReq/*    bridge/connreq_mgr.cpp: the servers found and the jobs that connect to them,
--                         with Step for what the threads do.
--   Base, Base/*          shared names and lemmas.
--   Examples/*            runs on concrete inputs, and the theorems at such inputs.
--
-- Conventions. A pointer is a number, and memory a function from numbers to objects; a read through a
-- pointer that leads nowhere is a fault, and so is a failed assert. A handler is one step on the
-- state, since libuv runs the callbacks of a loop one at a time. The results of libuv's calls are
-- inputs of a handler, with 0 for success, and an error code is the uint32_t that the code stores.
-- The user's callbacks are assumed to be set, and their calls are kept as a list of events.
--
-- The client. A caller's task lies at an address of its stack, and Client notes which tasks are on
-- their way to the loop, in a write, or in a connection attempt. A step takes what libuv owes the
-- loop, in any order, on these conditions: libuv ends a connection attempt before it reports its
-- handle as closed, no answer comes to a request before the callback for its write, and fewer than
-- 2^64 task ids are used. libuv does not promise the second: Client/Early is about what happens
-- otherwise.
--
-- The server. A task of the server is in the pool's queue, with a thread that runs the callback,
-- on its way to the loop, in a write, or its waiter has been woken; how many threads the pool has
-- is not bounded in the model. A handler of the server may also never return, and no step then
-- follows: neither the jobs that _server_handler_req pushes again and again once it has found more
-- than 64 waiting (retried), nor what the threads then do, are states of ServerLoop/Steps. The
-- wait in the middle of _server_shutdown, during which the loop runs no callback, is left out.
--
-- The pool of threads. A thread's step reaches to the next access to what threads share: the test
-- of exit_sem, its post, the locked part with the queue and the begin of the wait, and the two
-- callbacks, which do not touch the pool. A broadcast wakes every thread that waits; whether
-- uv_cond_wait may return without one is a parameter. Nobody pushes to a pool that is being
-- destroyed. The handlers of the server and ConnReq use the pool by its queue alone, but for the
-- server's field dozing, which says whether an idle thread misses the end of the pool.
--
-- Bounds. The loop of _server_handler_req that tries again runs on fuel (retry_push), with no
-- amount presumed. The parse loop runs on one round more than there are bytes, as many as the
-- cursor has places. A package that claims more than 2^31 bytes and passes the check counts as a
-- use of memory outside of the buffer when the loop hands it on. Buffers are taken to be shorter
-- than 2^31 bytes, so that the sizes that the code keeps in an int are their lengths; the length
-- field of a package is not bounded.
--
-- In Discovery and ConnReq an ip is the number of the address that its string is written from. The
-- discovery takes the answers of the operating system as a parameter, Os, and is none where the
-- code uses a semaphore or a thread that does not exist, or would wait for ever.
--
-- Not modelled: libuv and the operating system (third/libuv, third/cb_sysinfo, the system
-- information of AutoDiscover/boardcast/boardcast_common.cpp, common/select_network.cpp), the
-- tests, and bridge/boardcast_cache.cpp, which no build target compiles. The threads that run the
-- loops and their locks are not modelled. The functions of AutoDiscover that nothing calls are
-- left out, and so are the sleeps of its threads. Of the client loop the handles of uv_async_t are
-- left out. The end of a pool's memory, its semaphore, mutex and condition is one step.
mod Base
pub mod Proto
pub mod Stream
pub mod GenId
pub mod Table
pub mod Errors
pub mod ClientLoop
pub mod Discovery
pub mod ServerLoop
pub mod Gqueue
pub mod Rpc
pub mod Interface
pub mod Client
pub mod ThreadPool
pub mod ConnReq
mod Examples
