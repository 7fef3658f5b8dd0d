-- ===== src/Lib.antt =====
-- node-dubbo, the TypeScript implementation of Apache Dubbo's Triple protocol with gRPC and
-- gRPC-web beside it: clients and servers exchange messages over HTTP.
--
-- The parts modelled and the files that model them (paths from the repository's root):
--   Error           packages/dubbo/src/code.ts, dubbo-error.ts, protocol-triple/code-string.ts,
--                   protocol-triple/http-status.ts, protocol-grpc/http-status.ts
--   Limits          packages/dubbo/src/protocol/limit-io.ts
--   Envelope        packages/dubbo/src/protocol/envelope.ts; Envelope/Readable is its
--                   createEnvelopeReadableStream
--   Compression     packages/dubbo/src/protocol/compression.ts
--   Iterable        packages/dubbo/src/protocol/async-iterable.ts: the transforms; Iterable/Split
--                   is transformSplitEnvelope, Iterable/ReadAll is readAllBytes, Iterable/Cut is
--                   about outputs that are cut off at one that cannot be sent, and
--                   Iterable/Writable is createWritableIterable
--   Pipeline        the pipes that the handlers and the transports build from the transforms
--   Serialize       packages/dubbo/src/protocol/serialization.ts
--   Interceptors    packages/dubbo/src/protocol/run-call.ts, applyInterceptors
--   RunCall         packages/dubbo/src/protocol/run-call.ts, the rest of it; RunCall/Signals is
--                   protocol/signals.ts, RunCall/Course the events of a call
--   Client          packages/dubbo/src: Client/Callback is callback-client.ts, Client/Promise
--                   promise-client.ts
--   Web             packages/dubbo-web/src: Web/DubboTransport is dubbo-transport.ts,
--                   Web/GrpcTransport grpc-web-transport.ts
--   Invoke          packages/dubbo/src/protocol/invoke-implementation.ts
--   Triple          packages/dubbo/src/protocol-triple: Triple/Request is the headers of a request
--                   at the server, Triple/StreamHandler createStreamHandler and
--                   Triple/UnaryHandler createUnaryHandler of handler-factory.ts,
--                   Triple/StreamClient and Triple/UnaryClient the responses of streaming and of
--                   unary calls in transport.ts (and validate-response.ts), Triple/ClientRequest
--                   the requests (request-header.ts, get-request.ts), Triple/Json and
--                   Triple/ErrorJson error-json.ts, Triple/EndStream end-stream.ts, Triple/Mux
--                   trailer-mux.ts
--   Grpc            packages/dubbo/src/protocol-grpc: Grpc/Status is trailer-status.ts and
--                   validate-trailer.ts, Grpc/Timeout parse-timeout.ts, Grpc/Request
--                   request-header.ts and content-type.ts, Grpc/Response validate-response.ts of
--                   gRPC and of gRPC-web, Grpc/Handler handler-factory.ts, Grpc/Client the
--                   responses in transport.ts
--   GrpcWeb         packages/dubbo/src/protocol-grpc-web: GrpcWeb/Trailer is trailer.ts,
--                   GrpcWeb/Handler handler-factory.ts, GrpcWeb/Client the responses in transport.ts
--   Observable      packages/dubbo-observable/src: Observable/QpsCounter is qps-counter.ts,
--                   Observable/Collector meter-collector.ts
--   Universal       packages/dubbo/src/protocol/content-type-matcher.ts and the handler of
--                   negotiateProtocol in universal-handler.ts
--   Session         packages/dubbo-node/src/http2-session-manager.ts: Session/Ready is the state of an
--                   open connection, Session/Manager the states of the manager
--   Node            packages/dubbo-node/src: Node/Header is node-universal-header.ts,
--                   Node/Reasons node-error.ts, Node/HttpClient the client over HTTP/2 of
--                   node-universal-client.ts
-- The negotiating handler of Universal picks the handler of a protocol for a request.
-- A handler pipes the bytes of a request through the transforms of Iterable to the implementation
-- (Invoke) and its outputs back to bytes; a transport does the same from the other side. Both agree
-- on a compression by Compression, and report errors as Error has them. The session manager gives
-- the Node.js transports their connection.
-- The collectors of Observable count the requests that a provider or a consumer reports to them.
-- Beneath them, Headers is the platform's class of that name, ByteArray its arrays of bytes, and
-- Stream an AsyncIterable. Examples holds runs of the theorems at concrete inputs.
--
-- How the model corresponds to the code. A function that may throw returns an Outcome. A thrown
-- value is a Reason: a DubboError, another Error, or some other value. An AsyncIterable is the
-- list of the values that it yields with its ending, a return or a throw; when the values are
-- produced and what a consumer does that stops early is not in the model. A transform is a
-- function of such streams. Numbers that the code keeps in 32 bits or 8 bits are written out with
-- their wrap-around (the length and the flags in an envelope). Compressions and serializations
-- are records of functions, as in the code, and what a theorem needs of them is a hypothesis of
-- it. So are the platform's codings of URI components, base 64, JSON and text. A value in JSON is
-- the tree that JSON.parse gives. The timeouts of gRPC are counted in nanoseconds until they are
-- milliseconds. A clock is an argument, the number of milliseconds that Date.now() gives. What an
-- implementation does to the header and the trailer of a response is a function of the inputs
-- that it gets, and counts only where the code calls it.
--
-- Errors of Node.js with their causes stand in a store. A signal is what it was aborted with; a
-- call moves by its events, in any order.
--
-- A session manager is a record, and its methods, the events of its connection and the settling
-- of its promises are functions on it; the settled promises wait in a queue until the code that
-- is running is done, as in the language. A connection moves by a step relation, also while it is
-- verified. A writable iterable is a record too, with the promises that are settled in their
-- order.
--
-- Fuel. The inner loop of transformSplitEnvelope runs on fuel, one more than the buffer has bytes:
-- a message takes at least five bytes out of the buffer. A reader of createEnvelopeReadableStream
-- pulls as often as it has fuel, since there are bodies on which it never ends. The loop of
-- unwrapNodeErrorChain runs on fuel, one more than there are errors.
--
-- Not modelled: the message formats of @bufbuild/protobuf and zlib (libraries), sockets and the
-- fetch API (the platform), the client over HTTP/1.1, the server of Node.js, the routers, the
-- iterators that are driven from the consumer (makeIterableAbortable), how deadlines and abort
-- signals reach the handlers, the framework adapters and the code generators, and of the modelled
-- files the functions that the comments of their modules leave out.
pub mod Prelude
pub mod Headers
pub mod ByteArray
pub mod Error
pub mod Limits
pub mod Envelope
pub mod Compression
pub mod Stream
pub mod Iterable
pub mod Pipeline
pub mod Invoke
pub mod Triple
pub mod Session
pub mod Universal
pub mod Serialize
pub mod Interceptors
pub mod Grpc
pub mod GrpcWeb
pub mod Observable
pub mod Node
pub mod Web
pub mod RunCall
pub mod Client
mod Examples
