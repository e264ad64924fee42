-- ===== src/Lib.antt =====
-- A model of gosoulseek, a client library for the Soulseek file sharing network, in Go.
--
-- The program talks to a central server and to other peers. Its parts, and the files that model them:
--
--   protocol/          numbers and strings on the wire: `Reader` and `Writer`, which keep their first
--                      error, and the codes of the messages. Protocol/Reader.antt, Protocol/Writer.antt,
--                      Protocol/Codes.antt; Protocol/Decode.antt is the frame that the decoders share.
--   messages/peer/     what peers say to each other: Peer/Transfer.antt (transfer.go), Peer/Init.antt
--                      (init.go), Peer/File.antt (file.go), Peer/SearchResponse.antt (searchresponse.go).
--   messages/server/   what is said to the server and what it answers: Server/Requests.antt and
--                      Server/Responses.antt.
--   connection/        messages framed by their length: Connection.antt.
--   client/            the client's state. Client/TransferState.antt, Client/Transfer.antt and
--                      Client/Errors.antt are one transfer (transfer_state.go, transfer.go,
--                      transfer_errors.go); Client/Registry.antt holds all of them by token, remote token
--                      and file (transfer_registry.go); Client/Queue.antt is the queue of uploads
--                      (queue.go); Client/FileShare.antt is the folders and the index of what is
--                      shared (fileshare.go), with its records in Client/SharedFile.antt.
--                      Client/UploadRequest.antt is the answer to a peer that asks for a file
--                      (upload_request.go), which joins the registry, the queue and the shared files, and
--                      the processor of the queue (processNextUpload of upload.go).
--                      Client/Slots.antt holds the limits on transfers that run at once (slots.go).
--                      Client/Receiving.antt is the receiving end of a transfer connection (transferData of
--                      download.go), Client/Sending.antt the sending end (streamFile of upload.go), and
--                      Client/Delivery.antt the two together; Client/Outcome.antt is how a transfer ends
--                      (fail and complete of download.go). Client/Router.antt gives the server's
--                      messages to their handlers (router.go), and Client/Search.antt holds the searches
--                      under way (search.go).
--                      Client/Download.antt is a download from its call to its end (download.go,
--                      download_options.go), and Client/UploadRun.antt what an upload does around its
--                      loop (upload.go). Client/PeerMessages.antt is the loop over a peer's messages
--                      and its handlers (client.go, download.go), Client/Incoming.antt the routing of a
--                      peer's connection (listener.go, the cache of connmanager.go),
--                      Client/PeerConns.antt the callers that share an attempt to connect
--                      (connmanager.go), and Client/Session.antt the life of the connection to the
--                      server, with the read loop and the upload processor (client.go, upload.go).
--                      Client/ServerMessages.antt has the handlers of embedded messages and pings.
--
-- Names follow the source in lower case: `DecodeTransferRequest` is `decode_transfer_request`,
-- `(*QueueManager).EnqueueUpload` is `enqueue_upload`, which takes the queue and returns it anew.
-- Prelude.antt holds tests, lists and 64-bit integers; Client/Channel.antt and Client/KeyMap.antt are
-- Go's channels and maps; the runs at concrete inputs are in Tests.antt.
--
-- State. A method is a function from the receiver to the receiver. A method under a lock is one step.
-- A decoder reads a `Reader`: the bytes to come and the sticky error. The registry keeps its transfers
-- on a heap, and the three indexes hold addresses, so that a write through one index is seen through
-- the others; a panic, such as a second close of a channel, is `none`.
--
-- Concurrency. Sequences of events and of steps are lists, or the runs of a step relation, over which the
-- theorems range. A `select`
-- that blocks is given the branch that it takes, and is `none` while that branch is not ready; the two
-- stages of an upload slot are steps of their own, so that other goroutines run between them.
--
-- Numbers. A `uint32` is a natural number, cut by `% 2 ^ 32` where Go cuts it; an `int64` is an integer
-- that stands on the wire in two's complement. Loops are recursions on the data or on the count that
-- the code reads, so few need fuel: the conversion of a number to decimal has the ten digits of the code's
-- buffer, and the wait for an answer has one step for each byte that the peer sends, of which each message
-- takes four at least.
--
-- Parameters. MD5, zlib's two directions, the clock, `os.Stat` and the underlying `io.Writer` are
-- arguments.
--
-- Files on a connection. The loops of a transfer are recursions on the list of their passes; a pass is
-- what the outside does in it: the clock, the errors, and how many bytes are at hand, so that the theorems
-- range over every way in which a file is cut to pieces. While passes run out the loop waits. The theorems
-- on its end ask for one pass for each byte, since every pass moves at least one.
--
-- Memory. The router's entries lie in arrays, and slices are what the code holds of them: a slice that was
-- taken before a removal sees the cells as the removal leaves them.
--
-- Not modelled: sockets, dialling and timers (transfer_conn.go, peer.go, the accepting loop of listener.go,
-- connect of connmanager.go), the races of a download's waits, Rescan and GetStats of fileshare.go, and
-- the command in cmd/poc. Floating point speeds are kept as the expressions that are evaluated.
pub mod Prelude
pub mod Protocol
pub mod Peer
pub mod Server
pub mod Connection
pub mod Client
pub mod Tests
