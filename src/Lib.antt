-- ===== src/Lib.antt =====
-- grbl_proxy is a proxy between LightBurn, a TCP client, and a laser engraver on a serial port. It
-- relays bytes until LightBurn starts a job; it then keeps the lines of the job in a file while it
-- answers for the controller, and when the job ends it streams the file to the controller itself.
-- The sources are under src/grbl_proxy/ of the repository.
--
-- The parts and the files that model them:
--
--   Text         Python texts and their methods, as lists of code points. Letters and white space are
--                those of ASCII.
--   Protocol     grbl_protocol.py. Protocol is the classification of a response; Protocol/Split is
--                split_responses, Protocol/Report parse_status_report, Protocol/Print
--                make_status_response, Protocol/Codes the codes of alarms and vendor faults. Each
--                regular expression is a function, named after it in a comment.
--   Job          job_buffer.py. A directory is a list of named contents (Job/Files); open, write_line,
--                discard and finalize change a JobBuffer and a directory; Job/History is
--                rotate_history, Job/Listing load_job_history.
--   Streamer     streamer.py. Streamer is the object, Streamer/Supervision the faults it finds in
--                status reports and in silence, Streamer/Dwell the dwell pattern, Streamer/Kinds the
--                order in which the two drain loops test a response, Streamer/Loop, Send and Drain
--                what each response does, Streamer/Reading the reads and polls, Streamer/Run the loops
--                and run(). Streamer/Prompt is no code: it says when a controller answers in time.
--   Proxy        proxy_core.py. Proxy is the object; Proxy/Client, Bytes, Lines, Life, Poll and
--                IdlePoll are its handlers, Proxy/Replies the bytes of its answers; Proxy/Events lists
--                what calls the handlers.
--   Serial       serial_conn.py. Serial is the connection and its operations, Serial/Reading read_line,
--                Serial/Reconnect a round of the reconnect loop and what else happens to a connection.
--   Web          web/status.py, ProxyControl: Web/Control is the buttons and the console, Web/Start the
--                start of a job, Web/Names the names under which uploads are stored. Web/Console is
--                ConsoleLog of web/console_log.py, Web/Handler its log handler; Web/Status is
--                ProxyStatus of web/status.py. Web/Routes is web/routes.py: the requests that start and
--                steer a job, Web/Routes/Stored those on the stored files, Web/Routes/Views what pages
--                are shown.
--   Tcp          tcp_server.py. Tcp is _route_bytes: how the bytes of the client become calls of the
--                proxy and one serial write; Tcp/Session a client's coming and going and _tcp_to_serial,
--                Tcp/Upstream _serial_to_tcp. Python's decoding of bytes is a parameter, and what is
--                relied on is that it leaves ASCII alone.
--   Pipeline     the parts joined: from what a client or the web page sends to what the streamer has
--                sent to the controller.
--   Entry        main.py: the start and the end of the program.
--   Settings     config.py: the settings and their defaults, Settings/Load the reading of the file.
--   Devices      config.py, the choice of the serial port.
--   Examples     concrete inputs for the theorems, and tests.
--
-- The proxy holds the job buffer while it buffers and the streamer while a job runs; the streamer
-- calls on_streamer_done with its result when it ends, which is an event of the proxy.
--
-- Time is a number of microseconds. What the environment does is an argument: the streamer takes,
-- for each await, what the clock shows, what other tasks call meanwhile and how the read or write
-- ends (Tick, Turn, Env), and a loop whose inputs end is waiting; the proxy takes, for each event,
-- whether a serial write succeeds and the buffer opens (Io). The theorems hold for all of them. So
-- the loops need no fuel: they recurse on their inputs. A round of the reconnect loop and of the
-- relay to the client takes the same (Round, Turn). Fuel is given in two places: the search for a
-- free name has it for one try more than there are files, which suffices by the theorem on it, and
-- the printing of a number has it for as many digits as its value and one. A handler of the proxy is
-- one step, and calls of other tasks come before or after it, but for the handover of the serial port
-- to the streamer: where that waits (Io), its end is an event of its own, and so is its being cut off.
-- Within the streamer they come at each await. A write runs in a thread, so that one whose task is
-- cancelled may go out all the same (Sent).
--
-- Numbers have no bound, as in Python. The number of bytes in flight does not go below 0 in the model,
-- and never would by the theorem on the window. Decimals of a status report are kept as digits, and
-- are compared by value.
--
-- Not modelled: the listening socket of the TCP server, the parsing of HTTP requests, the web
-- server, command-line arguments and signals, the YAML parser; log messages but for those that the
-- console shows, the trace of recent traffic, the text of fault messages, whose data is kept;
-- failures of the disk other than those that the code catches; the duration in the metadata of a
-- job, which is its end less its start. A name of a file with a slash in it is one that does not
-- exist.
pub mod Prelude
pub mod Text
pub mod Protocol
pub mod Job
pub mod Streamer
pub mod Proxy
pub mod Serial
pub mod Web
pub mod Tcp
pub mod Pipeline
pub mod Entry
pub mod Settings
pub mod Devices
pub mod Examples
