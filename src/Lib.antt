-- ===== src/Lib.antt =====
-- LDNDRC's control panel, a Go program that gives every student a private ROS 2 workspace in a K3s
-- cluster and lets laptops join that cluster. Paths below are from the repository's root, without
-- the common prefix control-panel/.
--
-- Parts. The HTTP API (internal/httpapi) authenticates a request (internal/auth) and calls the
-- session store (internal/sessions), which owns the workspaces and drives a provisioner of
-- Kubernetes resources, or the node store (internal/nodes), which owns the requests of laptops to
-- join. The program on the laptop (internal/join, cmd/join) checks the hardware, asks to join,
-- polls until an operator approves, is handed a bootstrap token once, and installs the agent; a
-- watcher marks the node joined when the cluster has it. The gateway (internal/gateway) proxies a
-- browser to the tools of its user's workspace.
--
-- Base           the shared names; Go maps as association lists (Base.Map), int (Base.Int), float64
--                (Base.Float), fmt, strings and encoding/hex (Base.Text), encoding/json's values
--                (Base.Json) and its reading of a struct (Base.Decode), results (Base.Outcome)
-- Sessions       internal/sessions/store.go. Types: Status, Session, Store, and Env, the answers of
--                the clock, crypto/rand and the disk to one locked section. Domain:
--                nextDomainIDLocked. Store: the locked sections (saveLocked, Create up to Unlock as
--                create_locked, setStatus as set_status, validTransition, newID). Methods: Create,
--                Get, Current, Delete, List and Reconcile, which call the provisioner between
--                locked sections. Load: the constructors. Sections: a step is one locked section
--                that writes, Reach a row of them, so that Reach covers every interleaving of
--                requests. Walk cuts a call into locked sections of its user. Invariant, Create, Status,
--                Lifecycle, Calls, Apart, Answers, Creation, Loading, Restart and Reconciliation
--                hold the proofs. kubernetes.go: Manifests builds the
--                objects of a session, Cluster has Apply, Delete, WorkloadExists and Ready over a
--                client, ClusterLaws says what is taken of that, and Rollback, Removal and
--                Isolation hold the proofs.
-- Nodes          internal/nodes/store.go and tokens.go. Store: each method of Store is one locked
--                section. Steps: the six that write, and Reach over them. Tokens: MintToken, with
--                the API server as a parameter. Watcher: RunOnce and Run of watcher.go.
--                Effects, Registering, Invariant, Reload, History, Minting, Watching and Running
--                hold the proofs.
-- Http           internal/httpapi/router.go and csrf.go, internal/auth/auth.go. Limiter: the rate
--                limiter. Auth: tokens, CSRF and the guard. Jwt: what Issue signs, and Verify, over golang-jwt,
--                whose results Auth takes as a record of functions. Sessions and Nodes: the handlers, each
--                a function of the user that bearerClaims found and of the decoded body. Poll: the
--                handler of GET /api/nodes/{id}. Hex, Csrf, SlidingWindow, Isolation, TokenOnce,
--                TokenNames and Bounds hold proofs. Pages: SPAHandler of spa.go. Router: NewRouterWithNodes, all
--                handlers behind the CSRF guard on one state. Wire: the JSON that the handlers write and
--                read. Login, Strangers, PollSteps, Approval, Withheld, HandOut, Bystanders,
--                Serving and UsersApart hold the proofs about requests across handlers.
-- Gateway        internal/gateway/session_gateway.go. Handler: NewSessionHandler, on the host and
--                the cookie of a request. Ownership holds the proof. Proxy: gateway.go.
-- Join           internal/join/hardware.go, checks.go and model.go, cmd/join/main.go. Hardware:
--                Qualify. Checks: CheckRows. Model: the screens, the wrapper that starts the
--                engine, and the set-up of runTUI. View: what is drawn. Gate, Consent and Drawing
--                hold the proofs. Engine: the results of the client of register.go, its two waits,
--                and the bundle of diagnostics.go. Client: the requests of register.go and the
--                reading of their answers. Runner:
--                RunJoin of runner.go, cut at each call of the world. Install: InstallAgent and
--                InstallToolkit of install_linux.go over a machine, and install_other.go. Waiting,
--                Secrecy, Redaction, TempFiles, RoundTrip and Unapproved hold the proofs. Detect: detect_linux.go and its siblings for other
--                systems; Scenario holds its proof. Discover: discover.go. Program: the terminal
--                program with the engine that it starts.
-- Server         cmd/server/main.go. Start: main, from the environment to the parts that it serves.
--                Advertise: internal/discovery/advertise.go. Handler: the gateway in front of the
--                router. Boot: the first state of both. Network: the engine of a laptop, the router
--                and other clients over a network. Restart, Serving, Panel, Outsiders, Onboarding,
--                FirstPoll and Approved hold the proofs.
-- Tests and witnesses stand in the modules whose names end in Examples.
--
-- State and time. A method that holds a lock is a function from a store and an Env to an answer and
-- a store. A method that releases the lock and takes it again has one Env for each locked section.
-- The stores of other processes (the cluster) are a type parameter W, changed by the provisioner or
-- the minter, which are records of functions. A loop over a Go map, whose order is unspecified,
-- takes the entries in the order in which they are visited, and its theorems hold for every order.
-- Times are nanoseconds since year 1, as numbers without a bound; Go's int is an integer without a
-- bound, since no value here is the result of arithmetic that could overflow. A float64 is only
-- compared and printed, but for the probes of the hardware, which divide; printing and division are
-- parameters. JSON is modelled by the value that it encodes.
--
-- Loops and fuel. All loops are structural recursion. The scan of nextDomainIDLocked recurs on the
-- number of its rounds, 133, the size of its range. The decimal digits of n are printed with fuel n
-- + 1 (n + 2 for a negative number), and one digit takes one unit. The two waits of the join engine
-- recur on the number of their polls, and lack of fuel is none; a run needs more fuel than a
-- timeout has ticks.
--
-- Parameters. SHA-256, HMAC and golang-jwt, the Kubernetes API, the transport and routing of HTTP,
-- mDNS, timers, the installers, url.Parse, crypto/rand, the file system and the clock are
-- parameters of the definitions that use them. The theorems assume of them only what their
-- statements say: random IDs that are not in use, HMAC of bytes, token IDs that are not empty,
-- what golang-jwt documents of signing and parsing, and the laws of an API server that create adds, delete removes, and a refused request changes
-- nothing.
--
-- Not modelled: the parsing of command lines and logging; ProbeMaster, which dials; NewRouter, which
-- the tests call alone, and a router without stores; the reverse proxy and the routing of net/http,
-- which are libraries: a request of the router is given by the pattern that it meets, and in
-- Server.Network the pattern of a laptop's request is a parameter; the concurrent requests of one
-- watcher's round, which is taken as it runs alone.
pub mod Base
pub mod Sessions
pub mod Nodes
pub mod Http
pub mod Gateway
pub mod Join
pub mod Server
