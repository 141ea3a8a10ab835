-- ===== src/Lib.antt =====
-- The verification library of the server of vpl-jail-system (the C++ code in src/): the daemon, the
-- tasks and their tickets, the dispatch of requests and the monitoring of a task, UTF-8, the text
-- codecs of its protocols, its WebSocket layer, the redirectors between a client and a program, what a
-- socket sends and receives, and XML-RPC and JSON-RPC with their parsers.
--
-- How the parts fit together. The daemon (src/vpl-jail-server.h) accepts connections and forks a child
-- for each, whose exit status it counts. The child reads a request (src/jail.cpp): a command of RPC
-- makes a task, asks for its result or stops it, a WebSocket monitors or executes it. A task
-- (src/processMonitor.cpp) is shared by these children through the files of the control directory: its
-- tickets, its config and its outputs; one that does not run any more is cleaned. A client speaks
-- HTTP, then either XML-RPC (src/xmlrpc.h) or JSON-RPC (src/jsonrpc.h), whose texts go through the
-- codecs of src/xml.h and src/json.h, or WebSocket (src/websocket.cpp), whose frames carry the
-- terminal of a task. A request of RPC is parsed to a tree (src/json.h, src/xml.h,
-- src/requestmessage.h), from which its method, id and parameters are read, and the response is a text
-- of the same form. Text from a task is made valid UTF-8 on its way: get_clean_utf8 before it is put
-- into XML, sanitizeUTF8 before it is put into a text frame. While a task runs, a redirector
-- (src/redirector.cpp) carries bytes between its terminal, or its VNC or web server, and the client's
-- WebSocket or socket.
--
--   Prelude     tests on numbers, lists, the laws of the bit operations, what is used of the C library
--   Daemon      src/vpl-jail-server.h: the loop (Daemon), its counts (Daemon/Counts), the ban of an address
--               (Daemon/History), failed forks (Daemon/Forks, Daemon/FailedForks), the checks of files (Daemon/Checks)
--   Task        src/processMonitor.cpp: the files and the object (Task); the constructor for a ticket
--               (Task/Tickets), the constructor for a new task (Task/Create), getState (Task/State), the
--               outputs (Task/Results), cleanTask (Task/Clean), what a step leaves alone
--               (Task/Isolation)
--   Jail        src/jail.cpp: process and who may ask (Jail/Access), the limits of a request (Jail/Limits),
--               commandMonitor (Jail/Monitoring), commandRunning, commandStop, commandGetResult,
--               commandExecute and the child of commandRequest (Jail/Commands), paths of mount points (Jail/Paths)
--   Configuration  src/configurationFile.cpp: parseConfigLine, readConfiguration, writeConfiguration
--               (Configuration), one line (Configuration/Lines), a file (Configuration/Files)
--   Utf8        src/websocket.cpp: isValidUTF8, sanitizeUTF8 (Utf8, Utf8/Valid, Utf8/Sanitize), against
--               RFC 3629 (Utf8/Spec); src/util.h: get_utf8_nbytes_char, get_clean_utf8 (Utf8/Clean)
--   Base64      src/util.h: class Base64
--   Websocket   src/websocket.cpp: frameSize, isFrameComplete, decodeFrame, encodeFrame
--               (Websocket/Frame); receive, send, close (Websocket/Connection)
--   Redirector  src/redirector.cpp: the buffers (Redirector), and one round of the loop of `advance` for
--               each class (Redirector/Batch, Terminal, Vnc, WebServer), whose statements are in
--               Redirector/Pieces and put together by Redirector/Flow
--   Socket      src/socket.cpp: Socket::send (Socket), Socket::receive (Socket/Receive),
--               processHeaders and what it calls, with getLine of src/util.h (Socket/Headers)
--   Util        src/util.h: bytesToMemSize (Util/Sizes), compareConstantTime and removeCRs (Util/Text),
--               trimAndRemoveQuotes (Util/Trim), processExistsAndRunning (Util/Processes)
--   Message     src/requestmessage.h: the tree of a request, and what a parser returns
--   Xml         src/xml.h: encodeXML, decodeXML (Xml); the parser, with src/xml.cpp (Xml/Parser)
--   Json        src/json.h: encodeJSONString, decodeHexaUnicodeToUTF8, decodeJSONString (Json); the parser
--               and the tree, with src/json.cpp and src/requestmessage.h (Json/Parser); texts as a client
--               writes them (Json/Printed)
--   XmlRpc      src/xmlrpc.h: the constructor and the responses (XmlRpc), what they say (XmlRpc/Said) and
--               what is read from them (XmlRpc/Responses)
--   JsonRpc     src/jsonrpc.h: the constructor and the responses (JsonRpc), what is read from a request
--               (JsonRpc/Requests) and from a response (JsonRpc/Responses, JsonRpc/Forged)
--   Tests       the definitions and the theorems at concrete inputs
--
-- The model. A string is the list of its bytes, and a loop over positions of a string is a recursion
-- on what is left of it. A function that throws returns `none`. A method of an object takes the
-- object's fields as a record and returns them; calls on another object are a list of actions. A type
-- FrameType is a number, since the code casts any opcode to it. Sizes are natural numbers: frameSize
-- reads a 64-bit length with its highest bit clear, and the limit on frames is checked before sizes are
-- added, so no sum wraps around.
--
-- Files. The control directory and the home directories are a record of maps, from the names of the tickets
-- and from the user ids of the tasks. An operation of processMonitor holds the locks of its task, so it is
-- one step on this record, and returns a value or an exception with the files as they are then. A config is
-- kept as the fields that writeInfo writes and readInfo reads, so that a value that the text of the file
-- does not keep (one with = or #, with a line end, or with quotes at its ends) is outside that model; the
-- text is modelled in Configuration.
--
-- The system. What poll, read, write, connect, the clock and the sockets answer in one round of a loop is a
-- record, and a theorem on a run holds for every list of such records. A write takes at most the bytes it
-- is offered, as its manual says. The texts of the log are left out.
--
-- Fuel. The do-while loop of `advance` has six rounds, which are proved to be enough. The loops of
-- isValidUTF8, sanitizeUTF8, get_clean_utf8, decodeXML and decodeJSONString take at least one byte in each
-- round and have the number of bytes as their fuel; the theorems on them are about the whole function,
-- with that fuel. The parser of JSON has two units of fuel for each byte and one more, since each value and
-- each round of its loops takes a byte at least; Json/Parser/Termination proves them enough for every text.
-- The parser of XML has a unit of fuel for each byte and one more, which the theorems on printed documents
-- show to be enough for them. The loop on the headers of HTTP has one for each byte, which Socket/Headers/Fuel
-- shows to be enough. The loop for unused names in the constructor of a task has no bound in the code: its
-- fuel is an argument, and Task/Create/Fresh says when it is enough.
--
-- An uninitialised variable that is read (src/json.h, `unicode`) is a parameter, `unset`, and so is the byte
-- before an empty tag (src/xml.h, `outside`), and what a cast makes of a double below its type
-- (src/requestmessage.h, `outside`).
--
-- Not modelled: HTTP but for the dispatch and the check of the path, the other methods of a socket and
-- its cookies, TLS, the settings of the configuration, the texts of the log, control groups, the
-- handshake of the WebSocket, its wait and closeAndWait, and the code that is calls of the system: the
-- set-up of the jail, the ending of processes, locks, the sockets and signals of the daemon; of the
-- tasks, cleanZombieTasks, and how a program is run.
pub mod Prelude
pub mod Utf8
pub mod Base64
pub mod Websocket
pub mod Xml
pub mod Message
pub mod Json
pub mod JsonRpc
pub mod XmlRpc
pub mod Tests
pub mod Util
pub mod Redirector
pub mod Socket
pub mod Daemon
pub mod Task
pub mod Jail
pub mod Configuration
