-- ===== src/Lib.antt =====
-- Vial Gateway: an HTTP gateway whose routes, policies and upstreams come from a versioned
-- configuration, kept in Redis and administered over a control plane.
--
-- The configuration (cmd/gateway/config.go) is decoded into records, Config/Types.antt, and
-- validated, Config/Validate.antt and Config/Routes.antt; Config/Claims.antt,
-- Config/Accepted.antt, Config/Sound.antt and Config/Valid.antt are about what is accepted.
-- Application.antt is the validation of the whole application's configuration, and the reload of
-- cmd/gateway/main.go. The router manager (cmd/gateway/app.go) compiles a configuration to a
-- snapshot of routes and swaps it in: Route.antt is normalizeRoute, routePatterns and
-- compileRoute, and Manager.antt is compile, Activate, Validate and readiness;
-- Manager/Dispatch.antt is its ServeHTTP, with the mux around corsHandler.
--
-- A request to a route is serveHTTP of app.go, Serve/Exchange.antt. Its guards, in their order,
-- are Serve.antt; they call Auth.antt (authenticate), Auth/Jwt.antt (verifyJWT), Scopes.antt, and
-- RateLimit.antt with RateLimit/Request.antt (tokenBucketScript, allowRequest). Then come the
-- response cache, Cache.antt, the attempts of forward, Forward.antt, with Pool.antt (pick),
-- Header.antt, Trust.antt (clientIP, setForwardedHeaders), Path.antt and Transform.antt
-- (transformJSON), and the answer, Answer.antt (writeResponse, rewriteRedirectLocation,
-- corsHandler).
--
-- The control plane (cmd/gateway/control.go and admin_ui.go) creates, activates, lists and deletes
-- versions in Redis, and creates, lists and revokes API keys: Store.antt is the store and its
-- keys, Control.antt the handlers of versions, Control/Boot.antt and Control/Watch.antt what a
-- gateway does by itself (Start, and watch), Control/Lists.antt the lists of versions and of the
-- audit, Auth.antt and Auth/Shown.antt the handlers of keys, Cache/Invalidate.antt
-- invalidateCache, Session.antt protect and the login over a provider, with initOIDC in
-- Session/Client.antt. Console.antt is the mux in front of them, Console/Status.antt and
-- Console/Statistics.antt the handlers status and statistics. DynamicDns.antt and
-- DynamicDns/Worker.antt are sync and run of cmd/gateway/dynamic_dns.go, and Pool/Health.antt the
-- health checks of app.go. Command.antt is the process: newApp, and run with its loop over
-- signals, of cmd/gateway/main.go, between which loads from Redis and activations come. Provider.antt is the demo provider, cmd/demo-oidc/main.go,
-- through which Provider/Login.antt takes a login of the control plane. System.antt puts several
-- gateways and their clients on one Redis, each handler, request, login, load and reload a step;
-- Store/Register.antt is what the store promises, a register of versions, one of which may be
-- active.
--
-- Prelude, Text, Number, Hex, Dict, Url and Std stand for Go's standard library: texts are lists
-- of bytes, strconv and encoding/hex are written out, maps are association lists, and what is not
-- written out (net/url, package net, the tables of package unicode, SHA-256) is a field of the
-- record Std. JSON encoding (Codec, ResponseCodec, ObjectCodec, SessionCodec), http.ServeMux
-- (Host), gobreaker and the network (Upstream), package jwx (Jwx), the provider with package
-- oauth2 (Oidc, Wire), cryptography (Signer), Prometheus, the files and sockets of the process
-- (Process) and random tokens are parameters. Examples runs the development on a small
-- configuration.
--
-- Integers: an int64 is an integer of Prelude/Int.antt, wrapped where the source adds; the counter
-- of a pool wraps at 2^64. The token bucket is computed in exact arithmetic where the script has
-- doubles. The attempts of forward are a recursion on those that are left. Other loops are by
-- recursion on the list or the number of rounds; the printing of a number has fuel one above the
-- number, more than its digits.
--
-- A Start whose first SETNX fails while its second is answered is no step of the system: it can
-- make a version active that is not stored.
--
-- Redis is a state on which each command succeeds or fails, as the booleans of Calls say. A
-- transaction is one step on the state that its EXEC meets, which other clients may have changed
-- since the handler's earlier reads: WATCH makes EXEC fail if a key changed in between. A key that
-- expires is one that is missing in the next state.
--
-- Not modelled: metrics but the counters that theorems speak of, the HTML of the admin UI, flags,
-- middleware and the HTTP servers, which are libraries' calls, and the demo backend, an echo.
pub mod Prelude
pub mod Text
pub mod Path
pub mod Url
pub mod Pool
pub mod Dict
pub mod Std
pub mod Scopes
pub mod Hex
pub mod Number
pub mod Config
pub mod Header
pub mod Trust
pub mod Route
pub mod Manager
pub mod Store
pub mod Control
pub mod RateLimit
pub mod Provider
pub mod Command
pub mod Console
pub mod Examples
pub mod Auth
pub mod Forward
pub mod Serve
pub mod Session
pub mod System
pub mod Application
pub mod DynamicDns
pub mod Cache
pub mod Transform
pub mod Answer
