-- ===== src/Lib.antt =====
-- A model of haiku-mgmt-agent, a management agent for Haiku that speaks to AWS Systems Manager.
--
-- The parts and how they interact. The poll loop (src/main.cpp) asks the message service for work,
-- checks each delivery against a bounded history, replies, acknowledges and hands the command to a worker
-- thread. The worker runs the document (src/runner.cpp) or the patch baseline (src/patch.cpp), uploads
-- the output (src/s3.cpp) and replies with the outcome. Requests are signed with cached credentials of
-- the instance's role (src/aws.cpp). Session Manager (src/session.cpp) reads binary messages
-- (src/mgs.cpp) from WebSocket frames (src/websocket.cpp). Requests go through one HTTP client
-- (src/http.cpp), scripts through one runner of child processes (src/exec.cpp). Payloads are JSON
-- (src/json.cpp). The agent replaces itself from a manifest (src/selfupdate.cpp).
--
-- The files:
--   Prelude and below: bytes, signed integers, bits, big-endian numbers, lists over the native numbers.
--   Http: the request and the response of src/http.h; Http/Transport: `Socket::send_all` and the reads;
--     Http/Head: `read_headers`; Http/Body: `BodySink` and `read_body`; Http/Body/Spec: what a body is,
--     Http/Body/Cuts and Http/Body/Decode: the proof, Http/Body/Faults: files that fail;
--     Http/Perform: `Socket::connect` and `perform`.
--   Exec/Loop: the loop of `run_shell` in src/exec.cpp; Exec/Reap: the reaping and the result;
--     Exec/Capture, Exec/Escalation, Exec/Ends: the theorems.
--   Ws/Frame: `make_frame` and `parse_frame` of src/websocket.cpp; Ws/RoundTrip, Ws/Stream: their theorems;
--     Ws/Upgrade: `Client::connect`; Ws/Client: `send`, `recv` and `close`, with their theorems below.
--   Util/Text, Util/Codec, Util/Version, Util/Time: the strings, encoders, versions and times of
--     src/util.cpp; Util/Number: `strtoul` and `atoi` of the C library.
--   Mgs/Uuid, Mgs/Message, Mgs/Channel: the uuid's byte order, the message format and `create_channel` of
--     src/mgs.cpp.
--   Json/Value, Json/Strings, Json/Parser, Json/Errors, Json/Dump: src/json.cpp.
--   Session/Outbox: the retransmission buffer; Session/Start: the start request and the handshake;
--     Session/Control: the loop of `run`; Session/Sending: what is sent on the data channel;
--     Session/Handshaking, Session/Data, Session/Bridging: the loops of `run_session`; all src/session.cpp.
--   Runner/Params, Runner/Output, Runner/Document, Runner/Reply: src/runner.cpp.
--   Patch/Transaction, Patch/Inventory, Patch/Steps, Patch/Baseline: src/patch.cpp; Patch/Baseline/Reported:
--     what a run has reported.
--   Aws/Imds, Aws/Credentials, Aws/Signing, Aws/Api: src/aws.cpp; Aws/S3 and `build_request`: src/s3.cpp.
--   Timesync: `ensure_clock` of src/timesync.cpp.
--   Selfupdate: `check_and_apply` of src/selfupdate.cpp.
--   Agent/Seen, Agent/InFlight, Agent/Handle, Agent/Worker: the classes and handlers of src/main.cpp;
--     Agent/Once, Agent/Reached, Agent/Order: their theorems; Agent/Options: the command line;
--     Agent/Threads: the loops that `main` starts.
--   Tests: runs on concrete inputs.
--
-- How state is modelled. A byte string is a list of numbers, and a theorem that needs them below 256 says
-- so. A class is a record and a method a function on it; a handler takes the agent's state and gives
-- the next one, with the calls made so far in it. A shared pointer is a position in a store of flags. The
-- loop of the agent is the relation `Reached`, in which rounds of the poll and ends of workers interleave.
-- A connection is the list of what its reads return, and one that has nothing left to return is closed; a
-- child process is the list of what the passes of the loop see of it. Both are finite, so a peer that sends
-- without end is outside the model.
-- Fixed-width numbers keep their wrap-around where the source can reach it.
--
-- Parameters. The resolver, the TLS handshake, the file system under a download, the service's answers, the metadata service, the clock's texts, the shell, pkgman, the file
-- system's renames, the digests of mbedTLS and the C library's `strtod`, `strtol`, `gmtime_r`, `atoi` and
-- `printf` formats are arguments. Doubles are their bit patterns.
--
-- Fuel. The splitter, the JSON parser and its string loop run on the length of their input plus one; each
-- round takes at least one byte. The decimal printer runs on the number plus one. The loop over the chunks of
-- a body runs on the bytes that can still arrive plus one, the copying of a piece on its length, and `recv`
-- on the bytes and the reads that are left plus one; their theorems say that this is enough.
--
-- Not modelled: mbedTLS and its set-up, the socket options, the child between fork and exec
-- (src/exec.cpp), starting a shell on a pty and the pings of the control channel (src/session.cpp), the
-- signals and the output of the subcommands (src/main.cpp), logging (src/log.cpp), and `uuid4`. A `Status` is a type here where the source has a string.
pub mod Prelude
pub mod Ws
pub mod Util
pub mod Mgs
pub mod Json
pub mod Session
pub mod Runner
pub mod Http
pub mod Exec
pub mod Agent
pub mod Patch
pub mod Aws
pub mod Timesync
pub mod Selfupdate
mod Tests
