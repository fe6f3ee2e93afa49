-- ===== src/Lib.antt =====
-- ech-tunnel forwards TCP connections and UDP datagrams through a small number of WebSockets
-- (channels) to a server, over TLS with Encrypted Client Hello (ECH). The client keeps the channels
-- in a pool. A new local connection claims all of them, the first one whose acknowledgement arrives
-- wins, and the connection's request and data go over that channel. The server keeps one session for
-- each WebSocket: the TCP connections and UDP sockets that the client asked for, whose data it sends
-- back. The ECH configuration list comes from a DNS HTTPS record, which is asked for over HTTPS.
-- Local connections come from a SOCKS5 proxy, an HTTP proxy or a TCP forwarder.
--
-- Files and code:
--   Base      Go's strings, byte slices and maps: strings.SplitN and others, map reads, %d; Search has
--             strings.Contains
--   Wire      the messages of the tunnel, as pool.go and websocket_server.go build them
--   Pool      pool.go, type ECHPool. Pool.antt has the state, NewECHPool, dialOnce (redialChannel is
--             the same loop), RegisterAndClaim and RegisterUDP; Send has SendData, SendClose,
--             SendUDPConnect, SendUDPData, SendUDPClose and WaitConnected; Receive has handleChannel.
--             Channel has Start and the loop of handleChannel with redialChannel.
--             Valid and Steps hold the invariant, Race the race of the channels, Phases the contract
--             towards one connection, Signals and Announced what WaitConnected relies on, Delivery
--             the rest
--   Server    websocket_server.go. Server.antt has the state of handleWebSocket and its deferred
--             function, Dispatch its message loop, Udp its goroutine for UDP replies, Tcp
--             handleTCPConnection, Life the whole of handleWebSocket, Access runWebSocketServer with
--             its HTTP handler and, in Start, its listener. Paired, Steps and Lifecycle hold theorems
--   Tunnel    both ends on one WebSocket: handshake, data both ways, datagrams, and a channel that is
--             dialled again
--   Ech       ech.go: buildDNSQuery, parseDNSResponse, parseHTTPSRecord; Cache has prepareECH,
--             refreshECH and getECHList, Query has queryDoH and queryHTTPSRecord with url.Values.
--             Record and Response describe the messages as RFC 9460 and RFC 1035 do, Exchange the
--             request as its server reads it
--   Dial      tcp_client.go: buildTLSConfigWithECH and dialWebSocketWithECH with its dialer
--   Base64    encoding/base64: StdEncoding, and in Url RawURLEncoding
--   Net       net.IP: To4 and String; Errors has isNormalCloseError of utils.go
--   Socks5    socks5.go: parseSOCKS5UDPPacket and buildSOCKS5UDPPacket; Handshake has
--             handleSOCKS5Protocol, handleSOCKS5UserPassAuth and handleSOCKS5Request, Association
--             has UDPAssociation with its relay, its replies and Close, Associate has
--             handleSOCKS5UDPAssociate and sendSOCKS5UDPResponse. Association.World puts an
--             association beside all that runs with it: the array that handleUDPRelay reads into, the
--             goroutines, `done`, the replies and the end of the handler, in any order; Talk, Spoken,
--             Shared, Signals and Others are about it
--   Http      http_proxy.go: readHTTPHeaders and validateProxyAuth; Request has the request that is
--             built for the target, Handler has handleHTTPProtocol, handleHTTPConnect and
--             handleHTTPForward up to RegisterAndClaim. Fields describes headers as they are written
--   Local     what handleSOCKS5Connect, the two HTTP handlers and startMultiChannelTCPForwarder do
--             from WaitConnected on: the answer, the loop that sends, the deferred function. Handler
--             has the whole handlers, Listener the accept loop of the forwarder, and its Transcript
--             what this loop has done. Opening, Upload and Refusal follow a connection through both
--             ends
--   Launch    main.go: main; runTCPClient with its rules and the checks of runProxyServer
--   Proxy     proxy.go: parseProxyAddr and the choice of the protocol; Connection has
--             handleProxyConnection and the accept loop of runProxyServer, Doors a client that is
--             let through
--   Examples  concrete values for the theorems
--
-- An operation is a function from the state to the new state and a list of effects: writes, closes
-- and goroutines started, in order. Handles stand for connections, sockets and WebSockets. Which
-- writes, dials and lookups succeed is given by an environment, a record of functions. A critical
-- section of the code is one step, and so is an operation that takes its lock again behind a write,
-- together with this write: CLAIM_ACK with the request that it sends, SendUDPConnect, SendUDPClose,
-- and a message that is written to a local connection; RegisterAndClaim is also taken apart.
-- Pool.Steps and Server.Steps let the steps follow each other in any order, so that they cover the
-- interleavings of the goroutines at these steps. A `select` of WaitConnected that finds both cases
-- ready may take either. Where the code panics the model has a value for it: `none` for an assignment
-- to an entry of a nil map, `panic` for an index or a slice out of range.
--
-- Numbers are natural numbers, and bytes are numbers below 256 where a theorem needs it. Lengths that
-- Go writes into a byte or into 16 bits wrap around as they do there. Fuel: the loops that skip names
-- and parameters get the length of the message plus one, since each round moves on by at least one
-- byte (see Ech/Total.antt); %d gets the number plus one, since it has no more digits; the loop
-- over HTTP headers gets the length of the input plus one (see Http/Total.antt), and trimming white
-- space the length of the text, since each round takes a byte at least.
--
-- Not modelled: logging; ping and pong; the exchange of net/http and the TLS and WebSocket
-- handshakes, whose results are parameters; how the self-signed certificate is made, which is calls of
-- crypto/x509; IsClosed of UDPAssociation, which nothing calls; flag.Parse; the scripts. url.Parse, the
-- functions of package net for addresses and networks, and the number that fmt.Sscanf reads are
-- parameters, and so is the order in which a range loop visits the headers of a request. What a client
-- sends to the HTTP proxy is a list of bytes, all that it will send; deadlines of reads are not
-- modelled, and a loop that reads sees the bytes or the error of each read. A goroutine of
-- handleUDPPacket reads its slice of the shared array in one step.
pub mod Base
pub mod Wire
pub mod Pool
pub mod Server
pub mod Tunnel
pub mod Base64
pub mod Ech
pub mod Dial
pub mod Net
pub mod Socks5
pub mod Http
pub mod Local
pub mod Launch
pub mod Examples
pub mod Proxy
