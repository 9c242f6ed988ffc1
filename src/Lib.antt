-- ===== src/Lib.antt =====
-- rtio: devices keep a TCP connection to an access server, which verifies them, watches their
-- heartbeat, and carries requests both ways; users reach a device through the server.
--
-- The program's parts, and the files that model them:
--
-- pkg/deviceproto/codec.go and code.go, the frames between a device and the server: Proto. Types
-- has the constants and errors, Header DecodeHeader and EncodeHeader, Verify, Ping and Send the
-- messages. A buffer is a list of bytes, and an encoder's result is the buffer as the call leaves
-- it, with the header where the call changes the caller's. Slice is a Go slice with its spare
-- capacity, for the decoders that slice without a check.
--
-- pkg/deviceproto/codec_restlike.go, the layer of methods, URIs and status codes on top of it:
-- Rest, with Co for requests and responses and Observe for observations. Rest.Framing states what
-- it means that a message is delivered: its frame, with anything after it, is read back by
-- DecodeHeader and the decoder of the body, as the receivers read it.
--
-- pkg/timekv/timekv.go, the store of requests in flight: TimeKv. The time is an argument of Set and
-- DelExpireKeys. sync.Map is the finite map of SyncMap, used here and in the session.
--
-- pkg/rtioutils/rtioutils.go: Utils, with the random source as an argument, and WriteFull on fuel:
-- one round for each byte that is left and one more are enough.
--
-- internal/deviceaccess/access_server/devicetcp/session.go, the session of one device: Server.
-- State has the session and the monad of its methods: a Go outcome, which is a value, an error or a
-- panic, and the session as the method leaves it. Observing has CreateObserva, DestroyObserva,
-- ObGetEstablish and the notifications, Requesting has Send and serverSendRespone, Verifying has
-- receiveVerifyReq, Pinging has devicePingProcess, Resources has deviceSendRequest and what answers
-- it, Incoming has the loop of tcpIncomming, and Serving has tcpOutgoing, serve and what it defers.
-- Goroutines has serve and the two loops of one connection as they meet at the context, errChan,
-- outgoingChan with its ten places and the connection: an action is what one of them does next, and a
-- run is any sequence of actions. tcpIncomming may wait there for a place in outgoingChan, or for
-- another goroutine (in AddSession, at a response channel or at NotifyChan). The
-- conn_in of a session is what the peer has sent and the server has not read; outgoing_chan is what
-- tcpOutgoing is to write.
--
-- internal/deviceaccess/access_server/devicetcp/sessionmap.go and devicetcp.go, the sessions of all
-- devices: Server.Sessions, with AddSession and DelSession. A session stands there as a number, with
-- where its serve is, the device id that it was verified with, and how many values its channel done
-- holds; a session that is cancelled ends unless its serve waits for ever. AddSession, from its Cancel
-- to its Set, is one step there: two at once for one device are not modelled.
-- Server.Listening has InitTCPServer, Serve and Shutdown, with the WaitGroups of Serve and of the
-- program, as steps of their goroutines; a session may come to wait for ever there, as serve can in
-- Server.Goroutines, and then it never calls Done of the WaitGroup.
--
-- internal/deviceaccess/access_server/apprpc/apprpc.go, the calls that users make: Rpc. Codes has
-- transToRPCCode, Calls Get and Post, and Observe ObGet with obGetNotifyServe. The sessions are a map
-- from device ids to numbers and a function from those to sessions.
--
-- internal/deviceaccess/access_client/devicesession/devicesession.go and restlike.go, the SDK on a
-- device: Device. State has the DeviceSession, Requesting the registration of handlers and the
-- device's own Get and Post, Observing the goroutine observe, Answering the handlers of the server's
-- requests, Incoming the loop of tcpIncomming, and Serving verify, ping, tcpOutgoing, serve, reconnect
-- and recover. A handler of the application is a function that answers or fails.
--
-- pkg/config/config.go and internal/deviceaccess/access_server/backendconn/backendconn.go: Config, the
-- stores of settings, and Backend, the connections to the device service and the verifier, where what
-- dialing gives is an argument.
--
-- Link has the two ends together: what one end has put on its outgoing channel is what the other
-- reads. Calls takes a call of Send through the device, Users a call of a user, Resources a call of the
-- device, Observations the establishment of an observation, Notifications a notification, Streams the stream
-- of a user who observes, Handshake what a device sends first, and Oversize an answer that is too long
-- for a frame. Those take one call at a time. Traffic takes any number of callers of Send on one session:
-- a step is a caller that sends or returns, or one of the four loops that moves one frame, and a state
-- is reached by any sequence of them from a session with nothing under way. A caller sends there
-- where its request and the answer of the handler fit a frame and no request in flight has its id,
-- and none times out; Freshness is about that condition on ids.
--
-- examples/deviceservice and examples/deviceverifier: Apps, the backends that the repository brings
-- itself, in the places where Server.Resources and Server.Verifying take any.
--
-- How they interact: tcpIncomming reads five bytes, decodes them by Proto, and hands the header to a
-- method of the session, which reads the body, decodes it by Proto or Rest, and puts a frame on the
-- outgoing channel. Send and ObGetEstablish register a response channel in the TimeKv under the id of
-- the frame, and serverSendRespone finds it there.
--
-- Choices. Machine integers are native numbers with their wrap-around written out (u8, u16, u32), and
-- observaCount, an int32 that stays small, is a number. A channel is a queue without a bound, but for
-- errChan, outgoingChan and done in Server.Goroutines and Server.Sessions: elsewhere a send that would
-- wait for a reader is let through. What serve defers runs in one piece in Server.Serving. A caller that waits for a response takes as an argument what the rest
-- of the server does meanwhile, and how the wait ends. The loop of tcpIncomming is a recursion over
-- the configurations that its rounds see, so it has as many rounds as that list, and its context is
-- done when they run out; every statement is about all such lists. What the loop asks of the timers
-- and of the session map is a list of effects. The backends (the device verifier, the device service)
-- and the random source are arguments, any functions. Log calls are left out, but for two that
-- dereference nil and one that slices a secret.
--
-- The loops of serve, on both ends, are recursions over the events that their select sees, with what
-- the other goroutines do in between as events of their own on the server. recover is one over what
-- each attempt to dial gives. WriteFull has fuel for each byte of the frame and one more, on both ends.
--
-- Not modelled: dialing, InitRPCServer and the gRPC streams, which are network I/O; the gateway, the
-- programs, the tools and the other examples, which read flags and call libraries; the generated
-- protobuf code; and URIHash, a call of crc32, whose result is an argument where a URI is hashed.
--
-- Prelude has the shared notation and lemmas: tests, lists, words, bytes, Outcome, the result of a
-- Go call, and Methods, the monad of the methods of a session.
pub mod Prelude
pub mod Proto
pub mod Rest
pub mod SyncMap
pub mod TimeKv
pub mod Utils
pub mod Server
pub mod Device
pub mod Rpc
pub mod Link
pub mod Config
pub mod Backend
pub mod Apps
