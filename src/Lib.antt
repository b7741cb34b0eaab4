-- ===== src/Lib.antt =====
-- The agent of the ExpressVPN container (image/agent, written in Go): a SOCKS5 proxy whose clients
-- reach the network only through the VPN tunnel, a reconciler that drives the kill switch, the
-- uplink and the VPN to the configured state, and an HTTP API with an administrator's password.
--
-- Each part of the agent has a module.
-- * Config models image/agent/internal/config: the records, the defaults, `Validate` and `Redacted`
--   (config.go), JSON values with the merge patch and the difference of keys (store.go, Json), and the
--   store with its file (store.go, Store). encoding/json and the sorting of texts are the record
--   `Library` with named laws. A save succeeds or fails as a whole, since it renames a finished file.
-- * State models image/agent/internal/state/state.go: the snapshot that the parts share. Writers
--   change it by functions from a snapshot to a snapshot, as `Store.Update` does. Store models
--   store.go of the same folder: the snapshot with the channels of its subscribers, for calls that
--   come one after the other (Freshness), and `Update` by several writers, whose deliveries follow
--   after the lock is released, as steps of an interleaving (Interleaving).
-- * Xvpn models image/agent/internal/xvpn: the choice of the protocol (protocol.go, Protocol), the
--   errors (errors.go, Errors), the parsers of what expressvpnctl prints (parse.go, Parse), its calls
--   (cli.go, Cli) and the manager (manager.go, Manager). Runs of the program, the clock and the public
--   address are the record `Host`, whose answers may depend on all the commands and pauses so far. A
--   wait polls until its time is over; `poll` runs on a number of rounds, and with a clock that
--   advances by each pause that number is enough (Waits). The daemon and the files are left out.
-- * Killswitch models the two rule files, image/agent/internal/killswitch/ruleset.go and
--   iptables.go, as lines and as text. The kernel's packet filter is a parameter, the record
--   `Filter`, with the documented rule that the first matching line decides. The membership of an
--   address in a subnet is another. Manager models manager.go: loading the rules, with the fallback
--   to the older backend. What it calls is the record `Outside`, and the log of a manager holds every
--   action with its success.
-- * Reconciler models image/agent/internal/reconciler/reconciler.go. `World` holds the loop's
--   fields, the snapshot and the history of the calls made so far. The drivers are a parameter, the
--   record `Drivers`: their answers may depend on the whole history, and they may change the
--   snapshot, which stands for what other goroutines write while the loop waits. `reconcile` is one
--   pass, in the order of its four layers, and `run` a sequence of passes, each with the
--   configuration that it finds. Progress is about drivers that succeed, Reverts and Stale are about
--   configurations that return to what was applied before a failure. Actions models actions.go,
--   what the user asks for: it changes the configuration and the snapshot, sets a flag for the loop's
--   wake-up channel, and waits on the list of snapshots that arrive before its time is over. The
--   account, the locations and the probes are the record `Services`. The loop's ticker and its log
--   lines are left out.
-- * Proxy models image/agent/internal/proxy: the messages of socks5.go over a connection with short
--   reads and failing writes (Conn, Address, Socks5, Handshake), the service of one client in server.go
--   and udp.go (Server), and in udp.go the headers of relayed datagrams (Datagram) and the relay with
--   its table of flows (Relay). The resolver, the dialer, the text of an address and what a relayed
--   connection carries are parameters. A round of the relay is one datagram or one failed read, with its
--   time and whether the tunnel is up. The listeners and the deadlines are left out.
-- * Api models image/agent/internal/api/sessions.go (Sessions) and operations.go (Operations). File
--   operations fail as a list of faults says, and a failed one leaves the files as they were. The
--   password hash is a parameter with the law that a password passes against its own hash. The
--   moments at which requests arrive are arguments. Access models the API token (token.go) and who is
--   let in (`requireAuth` and `crossSiteBlocked` of server.go), and Login the handlers of the password
--   (auth_handlers.go), with the decoded body of a request as an argument. Server models the
--   handlers of server.go, and Server.Routing its `New`: a request arrives with its path and body
--   decoded, goes to the handler of its pattern, through `requireAuth` unless the pattern is one of
--   the open ones, and changes the token, the configuration, the log's secrets, the operations or,
--   by the handlers of the password, the sessions. What an operation runs is only named.
-- * Uplink models image/agent/internal/uplink: the routes (routes.go and resolvconf.go, Routes) and the
--   manager (manager.go, Manager, and its health monitor and manual probe, Monitor). Manager.Engine
--   reads from the history whether the tunnel program has the default route. Commands,
--   processes and the network are the record `System`, whose answers may depend on all that was done
--   before; starting the tunnel program with the wait for its interface is one of them. Probes are
--   numbered in the order of their starts.
-- * Selfcheck models image/agent/internal/selfcheck/selfcheck.go: `Run` and `waitSettled`. A wait is the
--   list of its looks at the snapshot, each with whether the time is over, and what the services report
--   may depend on all that was done before.
-- * Logs models image/agent/internal/logs/logs.go: the ring of entries with its queries and subscribers
--   (Buffer) and the redactor of secrets (Redactor).
-- * Base holds what the modules share, and Tests runs the definitions and applies the theorems to
--   concrete inputs.
--
-- The reconciler calls Config's comparisons, State's snapshot and Xvpn's choice of the protocol.
-- The proxy reads the tunnel's state through its gate, and the kill switch's mark separates the
-- traffic of its clients. Every definition is by structural recursion: the polling of Xvpn counts
-- rounds, with the proof that they are enough, and a query of Logs has as many rounds as the ring has
-- entries.
--
-- Numbers are natural numbers. Ports on the wire keep their reduction modulo 256 for each byte. The
-- backoff's shift stays far below 64 bits, since it is taken for fewer than ten failures. A port of
-- the configuration is an integer, which may be negative.
--
-- Not modelled: the programs and files that the agent runs and writes
-- (image/agent/internal/xvpn/daemon.go and statedir.go), the text of the configuration of the uplink's
-- engine and its exchange with the proxy, the requests of the self check, what the event streams,
-- the pages and the diagnostics of the HTTP server hold, and the command, which wires the parts
-- together.
pub mod Base
pub mod Config
pub mod State
pub mod Xvpn
pub mod Killswitch
pub mod Reconciler
pub mod Uplink
pub mod Proxy
pub mod Api
pub mod Selfcheck
pub mod Logs
pub mod Tests
