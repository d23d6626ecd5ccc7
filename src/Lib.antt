-- ===== src/Lib.antt =====
-- The verification library of CorrectGPS, a daemon that reads requests of phones with Baidu
-- coordinates, shifts them by stored offsets and passes them on to a car server.
--
-- The parts and the files that model them:
-- - src/CXArray.{h,cpp}: OffsetArray.antt. The array of the offsets of one latitude: `append`
--   and `getGpsxy`. Order states that the keys stay in order, Contents what the array holds,
--   Lookup what is found again, Linear that the search is a plain one where it does not fail.
-- - src/tools.{h,cpp}: Tools.antt. Trim (strtrim, with Ends and Kept for its
--   theorems), Items (get_item_from_line, file_to_items),
--   Values (read_conf_value, write_conf_value), Coordinate (chang2uint), Unicode (the UTF-8
--   conversions), Checksum, Clock (getnowdate), ExeDir (getexedir); Chars has the C library's
--   isspace, isdigit and atoi, Decimal its "%d", as the standard gives them.
-- - src/CClient.{h,cpp}: Client.antt. A connection of a phone and its buffer: `receive` and
--   `parse`. Scan is about the search for a keyword, Parse about the bounds of the buffers,
--   Receive about requests in pieces and requests without a field. Client.Messages is about
--   the message that `parse` logs first, whose format holds the phone's bytes, Client.Clean about
--   bytes that have no conversion in them, and Client.Within about the bounds of `parse` with its
--   message. `parse_bytes` is `parse` behind the message.
-- - src/log.{h,cpp}: Log.antt. The messages to syslog, with the buffer that they are made in;
--   Plain is about texts that are their own format, File has the log file.
-- - src/Csender.{h,cpp}: Sender.antt and Sender/Feedback.antt. The connection to the car server:
--   Connect, Close, Send in the first, Recv in the second.
-- - src/SelEpolKqEvPrt.{h,cpp}: Poller.antt. The epoll set of the main loop.
-- - src/Ccorrectit.cpp: Correct.antt. The worker, which joins Client, Tools.Coordinate and
--   OffsetArray: the texts of a request become keys, and the entry of the keys is the shift.
-- - CClient::Send2CarServer and sendback: Exchange.antt, which joins Client and Sender.
--   Descriptors is about the descriptors that an exchange leaves open, Reply about the answer,
--   Ends about the time that an exchange takes.
-- - src/CclientManager.{h,cpp}, and what src/gps.cpp does with it: Manager.antt. The map of the
--   clients and the queue of whole requests. Steps has the main loop and the workers as a step
--   relation, Lookup lemmas on the map, Invariant and Reachable the invariant of the reachable
--   states, Bounds the sizes of the clients, Timeout killTimeoutClient, Shutdown the destructor,
--   Connections what happens to a connection, Schedule what happens to a request in the queue, Fifo
--   the order in it, Delivery the way of a request through the steps; Work has the cases of a worker's part under
--   the lock, Safety the bounds in the reachable states, Threads start and stop.
-- - src/dbdo.{h,cpp}: Loader.antt. The loading of the offsets into the map of the latitudes.
--   Shifts is about one row, Batches about the loop over the batches; Table has the rows of the
--   database as a table, without the arrays, and Serves relates the two for the requests that
--   the worker corrects. Link has the connection and its settings.
-- - src/Ccfg.{h,cpp}: Config.antt. The settings, from the items of the configuration file.
-- - src/gps.cpp: Daemon.antt. The loop over the events, which joins Poller and Manager, and the
--   signals. Safety is about the bounds of the buffers, Watching about the descriptors that the two components
--   share, Signals about the end of the loop.
-- - src/Cserver.{h,cpp}: Server.antt. The listening socket; Descriptors is about what stays
--   open.
-- - src/become_daemon.{h,cpp}: Process.antt. The start of the daemon; Streams is about what is
--   open then.
-- - src/gps.cpp, main: Program.antt, which joins Process, Server, Poller and Daemon. Safety
--   carries the bounds of the main loop over to the whole run.
-- - Service.antt joins the parts: from what a phone sends to what the car server gets, and
--   Service.Delivery on to what the phone gets, over the steps of the threads.
--   Client.Request has the line that a phone prints, Client.Query and Client.Fields how the
--   parser finds its parts.
--
-- How the code is read: a method is a function from the object's record to its new record. A
-- buffer is a function from indices to values (Base.Memory), with its declared size tested where
-- the code reads or writes. A read or write outside it is a fault, as are the use of a null
-- pointer or of what was deleted, a failed assert, a conversion of printf with no argument, and a
-- memcpy or strcpy between regions that overlap, which C does not define (Base.Outcome, Base.Copy).
-- `Ensures r P` says that r is no fault and its value has P; `Within P r` lets r end at a failed
-- assert or at a copy of overlapping regions as well. Machine
-- words are numbers with `% 2 ^ w` written out. Doubles are a type `D`, with what the code does
-- with them as parameters. What system calls give is an argument.
--
-- Fuel: a loop over a buffer has the number of positions left as its fuel, the loop over a file
-- the number of its bytes (each turn takes one at least), the UTF-8 decoder the number of its
-- bytes, the loop of `checksum` the sum itself, which each turn makes less. The waits of
-- Connect, Recv and getEvents, the loop of getdb, the loop of createListener and the main loop
-- recur on the list of what select, recv, epoll_wait, the database and getaddrinfo report. The
-- main loop gives none where the list ends before it does.
--
-- Threads: a step is what a thread does between two locks, and steps interleave in any order.
-- Data races inside a step are not part of the model. A worker reads pc->fd behind its lock; the main
-- loop may have freed that client by then, so `kills` allows every descriptor there. In
-- Manager.Steps an accepted connection is registered with the poller in the same step; where an
-- option is refused, that closes its descriptor and leaves its client, and the theorems that need
-- the two together assume that it is granted. `talks` in Manager is no state of the program: it is
-- the list of what was said to the car server and to the phones.
--
-- Not modelled: get_in_addr and getMB of src/tools.cpp (a cast, and a helper on floats that nothing
-- calls), the timeouts of src/Csender.cpp that nothing sets, log_open (one call of openlog), the
-- builds without USE_ARRAY or NONEBLOCK_SOCKET, src/ename.c.inc (a table), src/Clistener.cpp (an
-- empty class), src/Thread.cpp, src/Thread.h, src/CastUtil.h and src/StringUtil.h, which are files
-- of another project, and the MySQL client, which is another one.
pub mod Base
pub mod OffsetArray
pub mod Tools
pub mod Client
pub mod Sender
pub mod Poller
pub mod Correct
pub mod Exchange
pub mod Manager
pub mod Loader
pub mod Config
pub mod Daemon
pub mod Server
pub mod Log
pub mod Service
pub mod Process
pub mod Program
