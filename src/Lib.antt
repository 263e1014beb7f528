-- ===== src/Lib.antt =====
-- Verification of go-netflow, which charges the TCP packets of a machine to its processes.
--
-- The program captures packets, finds the process that owns the connection of each, and keeps for
-- every process the bytes of the last seconds. Its parts meet in `Netflow` (netflow.go):
--   capture -> packet queue -> worker (`handlePacket`) -> address -> inode -> pid -> process;
--   a packet whose process is not known waits in the delay queue for the next rescan;
--   a rescan reads /proc/net/tcp (addresses to inodes) and /proc/*/fd (inodes to pids);
--   `GetProcessRank` sums the last seconds of every process and sorts.
--
-- Files, with the code that each models:
--   Base         helpers: lists, byte strings, Go's maps as association lists, 64-bit integers as
--                their bit patterns, times in nanoseconds since year 1, panics, strconv.
--                Alike: two maps with the same entries in another order
--   Traffic      process.go: `Process`, its ring, `IncreaseInput`, `IncreaseOutput`,
--                `analyseStats`, `shrink`, `copy`; netflow.go: `increaseProcessTraffic`.
--                Ring: the invariant of the ring. Amount: the bytes in the ring against those counted.
--                Window: the statistics against a replay
--   Mapping      types.go: `Mapping` with `Add`, `Get`, `Exists`, `Delete`, `Cleanup`.
--                Laws: its operations against each other. Replay: any calls against a map of keys.
--   Controller   process.go: `processController` with `Rescan`, `Sort`, `GetRank` and the lookups.
--                Refresh: a rescan against a map of pids. Owners: inodes. Rank: the ranking by
--                the code's comparison. Volume: by the bytes in the window. Unordered: the ranking
--                and the order in which `range` visits the map. Loop, Scans: the goroutine of `Run`
--   Scan         process.go: `GetProcesses`, `getMatchingPIDs`, `getProcessName`.
--                Laws: the scan against the sockets of each process. Owner: scan and rescan. Fresh:
--                that its processes have statistics. Flat: `GetProcesses1`. Layouts, Equivalent: it
--                against `GetProcesses`
--   Users        user.go: the loader of the user names
--   RingQueue    ringqueue.go: the bounded queue, which nothing uses. Laws: its bounds
--   Netstat      netstat.go: `getConnectionItem`, `parseAddr`, `hex2ip` and the choice of the file.
--                Address: the texts of addresses. Lines: whole lines. States: two tables of states
--   Rpc          rpc/url.go, rpc/auth.go, rpc/client.go: the headers and the response of a request.
--                Laws: the headers by key, and when a request succeeds. Auth: the authenticator.
--                Define: the structs of rpc/define.go. Client: the methods. Calls: a call as the
--                reply to one request
--   Netflow      netflow.go: `Netflow`, the two queues, `handlePacket` and what it calls.
--                Options: the options and `New`. Config: what they guarantee. Sync: the rescans and
--                the delayed packets. Attribution, Established: packets to processes. Delay: the
--                loop over the delay queue. Queues: what is lost and what waits. Rank:
--                `GetProcessRank`. Worker: the loop of the worker. Rescan: what a rescan changes.
--                Sends: the channels. Totality: the lines that the rescan reads. Payload:
--                `handlePacket1`
--   System       netflow.go: the goroutines (`captureDevice`, `loopHandlePacket`,
--                `startResourceSyncer`, the cleaner of `New`) as steps that interleave. Keeps: what
--                each step leaves alone. Queues: the packets in order. Stats, Health, Soundness: the
--                state in every run. Stopping: the end of the workers
--   Lifecycle    netflow.go, cgroup_linux.go, cgroup_os.go: `Start` and `Stop`. Held: what a log
--                leaves open. Release: what `Stop` asks to release. Outcomes: when `Start` succeeds
--   Devices      netflow.go: `parseIpaddrsAndDevices`, `buildPcapHandler`. Sides: the side of a packet
--   Upload       utils/helper.go: `TrafficMonitor`, `GetDefaultDevice`. Conserved: the bytes it counts
--   Core         core/blocking.go, config/config.go: the options, the readers of the signals.
--                Shutdown: how many signals end the command. Report: `processRanking`, `showTable`,
--                `reportHandler`. Ready, Reported: what a round reports. Running: the same while the
--                monitor runs. Outgoing: `showTable` of core2/blocking.go. Uploaded: what it
--                reports. Serving: the ranking that calls it, and its loop beside the goroutines of its
--                monitor. Ticks, Served, Ranked: what it reports in all its ticks
--   Startup      cmd/main.go, utils/helper.go, core/blocking.go: from the flags and the file of the
--                configuration to the running monitor. Runs: when `main` gets there
--
-- State is passed explicitly. A pointer to a process is a position in the controller's heap, so a
-- write through one pointer is seen through every other. `time.Now` and the file system are
-- arguments. A method that holds its lock for its whole body is one step; where a `select` may
-- take either of two ready cases, the choice is an argument. The order in which `range` visits a
-- map is the order of its entries, which is arbitrary. Where goroutines interleave, a step is what
-- one of them does between two waits, and a theorem holds of every sequence of steps. A worker and
-- the syncer hold no lock while they change a process, so a step of `System` (`mix`) lets the ring of
-- any process become any list at any time, which is more than two changes at once can do; what
-- is stated of the contents of a ring is stated of changes in sequence. A capture whose channel of
-- packets libpcap has closed is not modelled.
--
-- Fuel: only the loop over the delay queue (`drain`) takes it. Each round takes one entry from the
-- queue, so any fuel beyond the length of the queue is enough.
--
-- Not modelled: libpcap, gopacket and the cgroup library (a packet is the layers they decoded), the
-- contents of the pcap file, loggers and printing, the profiler, example/demo.go, and what the
-- program never calls and a library carries (`findPid`). The file system and the decoders of the
-- configuration are a parameter. `sort.Sort` is a parameter, with the hypothesis that it permutes
-- and orders its list; the HTTP client, the JSON encoder and decoder, the MD5 digest and the
-- arithmetic on floats are parameters without one.
pub mod Base
pub mod Users
pub mod Scan
pub mod Rpc
pub mod RingQueue
pub mod Traffic
pub mod Mapping
pub mod Controller
pub mod Netstat
pub mod Netflow
pub mod System
pub mod Core
pub mod Startup
pub mod Upload
pub mod Devices
pub mod Lifecycle
