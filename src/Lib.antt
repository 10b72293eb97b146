-- ===== src/Lib.antt =====
-- Exasol Local VM: the macOS launcher, launcher/mac.
--
-- The launcher is one program with two roles. The commands of its user prepare the disk and the
-- files, start a daemon process and talk to it; the daemon boots the virtual machine, forwards
-- loopback ports of the host to the guest, publishes the forwards in `vm-state.json`, and answers
-- requests on a private socket. A forward is written `name:guestPort:hostPort`; `start` encodes the
-- list of them for the daemon, which parses it again, binds each port and registers the forwarder.
-- Once SSH answers, the daemon writes the state file and is ready; from then on `forward-add` and
-- `forward-remove` change the registry and the file together, until a signal closes everything.
--
-- The files:
-- - Prelude: numbers, texts (lists of code points), results, tests, association lists and the lemmas
--   on them. Integers of Go are 64 bits wide, with their wrap-around (Prelude.Int).
-- - Std: what the code uses of Go's standard library, from its documentation: `strings` (TrimSpace,
--   Split, Join, ReplaceAll), `strconv` (Atoi, Itoa), the address texts of `net` (Std.Net), `flag`
--   (Std.Flag) and the lexical part of `path/filepath` (Std.Path). Prelude.Effects is a monad of state
--   and errors for code that stops at the first call that fails.
-- - Forward.Spec: launcher/mac/forwarding.go, `ForwardSpec`, `parseForwardSpec`,
--   `encodeForwardSpec`, `forwardSpecList`, `parseForwardSpecs`.
-- - Forward.StateFile: launcher/mac/forward_commands.go, `saveForwardState` and `writeVMState`. A
--   file is its decoded JSON (missing, malformed, `null` or an object); the temporary file is beside
--   it. Whether each system call succeeds is an argument (`FileCalls`).
-- - Forward.Registry: launcher/mac/forward_commands.go and forwarding.go, `updateForward`,
--   `handleForwardRequest`, `closeForwarders`, `startForwarder`, `LoopbackForwarder.Close`. A
--   forwarder has an identity, and the daemon's state says which identities are listening. What
--   `net.Listen` and the files answer is an argument (`Os`); that a port other than 0 is the one
--   bound is a hypothesis (`BindsExactly`).
-- - Forward.Lifecycle: launcher/mac/main.go, `runVMDaemon` from the binding of the forwards on, as a
--   step relation over the startup loop, the call of `waitForSSHService` (Wait.Ssh), the publication, live
--   requests and the signal handler. The registry's mutex is held throughout each step, so that a step is not interrupted.
--   Forward.Lifecycle.Collect, Publication and Degraded say what a state file means for the runs
--   before it.
-- - Forward.Proxy: launcher/mac/forwarding.go, `acceptLoop`, `proxyConnection` and `Close`, as a step
--   relation over the goroutines of one forwarder: clients, the guest and the network act at any time,
--   a socket is live, failed or shut, and each direction of a connection has the bytes sent, not yet
--   read and written. An `io.Copy` and the `Close` behind it are one step. Forward.Proxy.Flows is on the
--   bytes of one direction, Forward.Proxy.Closes on when the two sockets are shut.
-- - Boot: launcher/mac/main.go, `runVMDaemon` up to the start of the machine, and the socket file of
--   `startStatusListener`. Boot.Devices: the devices; whether a call of vz succeeds is an argument.
-- - VmDaemon: launcher/mac/main.go, `runVMDaemon` as a whole, a step relation that joins Boot, the wait
--   for the guest's address, Forward.Lifecycle and the signal handler, with the two ways to end: the
--   return with its deferred functions, and `os.Exit` without them. The handler's steps are a relation of
--   their own (`HandlerStep`), for given answers of ssh and vz and a given clock. The start of the machine is one
--   step: requests on the socket during it change nothing, and the handler is there from its end on.
-- - Disk: launcher/mac/main.go, `createSparseDataDisk`, `ensureDataDisk`, `resizeDataDiskCmd`, on a
--   file with a length and bytes.
-- - Shell: launcher/mac/main.go, `quoteShellArgument`, `remoteCommand`, `sshArgs`. Shell.Words
--   describes how a POSIX shell reads a line, Shell.Ssh how `ssh` reads its arguments.
-- - Socket: launcher/mac/main.go, one connection of `startStatusListener`, `isVMRunning`,
--   `queryHealthCheck`; launcher/mac/forwarding.go, `classifyDialErr`, `Probe`, `probeForwarders`.
--   Messages are decoded JSON, the outcome of a dial is an argument (`Dial`), and a connection says what
--   the client receives for the request that it sends. Socket.Probing: the goroutines and the mutex of
--   `probeForwarders`. Socket.Reported: a health check next to `vm-state.json`.
-- - Log: launcher/mac/main.go, `readLastLines`.
-- - Cli: the command line. Cli.Main: launcher/mac/main.go, `main`, up to the call of the command's
--   function. Cli.ForwardCommand: launcher/mac/forward_commands.go, `parseForwardCommand` and
--   `forwardCmd`, joined to the daemon in its child modules.
-- - Assets, Init: launcher/mac/main.go, `extractTarXZ`, `refreshInitAssets`, `initCmd`, the paths and
--   keys it uses and the runtime configuration. The directory is a map from paths to files; what `xz`
--   and `tar` read, what the ssh library answers and which calls succeed are arguments.
-- - Guest: launcher/mac/main.go, `loadVMRuntimeState`, `runCmd`, `setGuestClock`. Guest.Clock: the
--   goroutine of `startGuestClockSynchronization`, with its ticker and its context.
-- - Start: launcher/mac/main.go, `startCmd` up to the launch of the daemon, and what it makes of the
--   first event it receives: the state file, the marker of a degraded start, or the daemon's end.
--   Start.Parent composes it with `main` and the runs of Forward.Lifecycle, Start.Served with those of
--   VmDaemon. Start.Monitors: its monitors and their timeouts. Start.Tail: the goroutine that
--   copies `vm.log` to the terminal.
-- - Wait: launcher/mac/main.go, `pollUntil` and the loops like it in `stopCmd`, `shutdownVM` and the
--   signal handler (Wait.Stop), `waitForSSHService` (Wait.Ssh), `waitForInitOutput`
--   (Wait.InitOutput). Times are nanoseconds; what a call finds at a time, and when it is done, are
--   arguments, and that `time.Sleep` sleeps at least as long as asked for is a hypothesis.
-- - Tests: runs at concrete inputs.
--
-- Loops are structural recursion, but for these. Printing a number takes fuel one above the number,
-- more than it has digits; the search for the longest run of zeros in an IPv6 address takes eight
-- rounds, one for each group. A loop that waits takes one round more than its timeout holds intervals:
-- 130 half seconds for `stopCmd`, 150, 300 and 1200 fifths of a second for the virtual machine and the
-- monitors of `startCmd`, two rounds a second for the output of the init scripts, one for SSH. That is
-- enough, since each round sleeps for an interval at least.
--
-- Not modelled: the virtual machine itself, which is the third-party vz, its delegate calls and its
-- power-off; the process of `ssh`; the encoding of JSON; messages that are only printed. The text of an
-- error is its constructor.
pub mod Prelude
pub mod Std
pub mod Forward
pub mod Disk
pub mod Assets
pub mod Init
pub mod Guest
pub mod Boot
pub mod Log
pub mod Cli
pub mod Shell
pub mod Socket
pub mod Wait
pub mod VmDaemon
pub mod Start
pub mod Tests
