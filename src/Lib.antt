-- ===== src/Lib.antt =====
-- Verification of parts of the Monogon monorepo: the base of its operating system (osbase/), the
-- DHCP client of a node (metropolis/) and the Go libraries (go/, cloud/lib/) that the cluster
-- software stands on.
--
-- The program. The init process of a node runs everything under a supervision tree
-- (osbase/supervisor): a runnable starts groups of children, signals that it is healthy or done,
-- and dies; a processor that receives these events marks nodes and cancels the siblings of a dead
-- one, and a collection finds the subtrees that are stopped throughout and restarts them. What
-- child processes print goes through a line buffer into a ring of lines (osbase/logbuffer). The
-- load balancer and others keep their state in ordered maps (go/types/mapsets). The kernel module
-- manager finds the modules for a device in a radix tree of alias patterns (osbase/kmod). The
-- shepherd of machines keeps failing ones in a sinbin (cloud/lib/sinbin). What components log goes
-- into the journal of a log tree (osbase/logtree), from which readers take a backlog and a stream.
-- Components tell each other of new state through event values (osbase/event). Its command line is
-- read and written by osbase/bootparam. The network configuration brings interfaces up in the order
-- of their dependencies (go/algorithm/toposort), and a DHCP client keeps their leases
-- (metropolis/node/core/network/dhcp4c).
--
-- The files.
--   Prelude      names, Boolean tests, lists and byte strings that the other files share.
--   LineBuffer   osbase/logbuffer/linebuffer.go: LineBuffer with writeLimited, commitLine, Write
--                and Close. LineBuffer/Bytes and LineBuffer/Chunks hold the lemmas and theorems.
--   LogBuffer    osbase/logbuffer/logbuffer.go: the ring, lineCallback, ReadLines and
--                ReadLinesTruncated. LogBuffer/History states the ring against the history of all
--                lines, LogBuffer/Pipe is the line buffer with the ring behind it.
--   Supervisor   osbase/supervisor. Tree: `node` as a tree of records, where a pointer is a path
--                from the root. Node: supervisor_node.go and supervisor.go (runGroup, signal,
--                SubLogger, groupSiblings). Dn: dn and nodeByDN. Processor: processDied of
--                supervisor_processor.go, Died/Effect what it does. Gc: phase two of processGC.
--                RunGroup, Runs, Restarts: what each operation keeps. Reachable: what runnables call,
--                deaths, restarts and the kill, in any order, as a relation on trees.
--   OrderedMap   go/types/mapsets/orderedmap.go: all methods and the cycle iterator. Order is the
--                interface of keys.
--   Kmod         osbase/kmod/radix.go. The tree with lookupModulesRec and addPatternRec; Matching,
--                Splitting and Adding hold the proofs. Pattern: parsePattern and AddPattern, against
--                the notation of patterns that Pattern/Grammar states. Manager: osbase/kmod/manager.go,
--                the loading of modules behind their dependencies, with the kernel as a parameter.
--   Sinbin       cloud/lib/sinbin/sinbin.go: the map of deadlines; Penalty states it against the
--                history of the calls.
--   JsonPatch    osbase/jsonpatch/jsonpatch.go: the encoding of JSON pointers.
--   Msguid       osbase/msguid/msguid.go: the conversion between UUIDs and GUIDs.
--   Cartesian    go/algorithm/cartesian/cartesian.go: Product.
--   Toposort     go/algorithm/toposort/toposort.go: the graph and both depth-first sorts. Graphs and
--                References state the operations on graphs, Visits is what both searches share,
--                Order is TopologicalOrder, Repeats is DetTopologicalOrder, Cycles the paths.
--   Logtree      osbase/logtree: the journal of journal.go and journal_entry.go with its global and
--                local lists. Linked: the statements on a doubly linked list, stated against plain
--                lists in Linked/Chain and Linked/Cutting. Numbers: seqLocal. Views, Standing,
--                Quotas and Appending: the journal against the list of its entries. Reading:
--                filters and scans. Access: Read of logtree_access.go and notify of
--                journal_subscriber.go. Options: what the options of Read ask for. Scans,
--                Requests and Backlog: what Read and notify return.
--   Dhcp         metropolis/node/core/network/dhcp4c/dhcpc.go: the client. Leases: the check of an
--                offer. Client: the state and the handlers of messages. Run: the transactions, the
--                rounds and Run. Wiring and Rounds state the invariant, Deadlines the times.
--   BootParam    osbase/bootparam: kernel command lines. Tokens states parseToken against the forms
--                that Marshal writes, Scanning is the loop of Unmarshal, Lines is the round trip.
--   EventValue   osbase/event/memory/memory.go: a value without Sync and its watchers; Serving is
--                about each call, Latest about any sequence of calls.
--   Examples     tests, and the theorems at concrete inputs.
--
-- How code is modelled. A method that mutates its receiver takes and returns it; a panic is `none`;
-- an error is a value of a data type. A Go map that is ranged over is a list in the order of the
-- iteration, so a theorem for all lists holds for each order. A callback is a function on a state
-- that the caller chooses. Locks are not modelled: each operation holds its lock throughout, so a
-- sequence of operations is a sequence of steps. Lengths are natural numbers without a bound; no
-- counter of the modelled code can pass 2^63 in practice; seqLocal of the journal wraps at 2^64. A
-- pointer to a node of a tree is a path, to an entry of the journal or to a watcher a number. Where
-- the supervisor joins the names of a path to a string and splits it again, a path stands for the
-- same node as long as no name has a dot; Supervisor/Dn is about the strings themselves. A
-- DHCP message is what the accessors of the library dhcpv4 report of it, and the fractions of the
-- lease time, which are floating point, are parameters with bounds. Calls that goroutines make in
-- any order are relations or lists of events.
--
-- Fuel. The loop of Write has one unit for each byte of the input and one more, and each round
-- takes at least one byte; so has the loop of parsePattern. Phase two of processGC has fuel for
-- the nodes on the ways from the queue to the root, times the length of the queue: the head is
-- either visited for good or put back, and one of the nodes in the queue is always due; that it is
-- enough is part of the theorem. The depth-first searches have fuel for one level of recursion for
-- each node and one more, and the nodes on the stack are distinct. The scans of the journal take
-- their fuel as an argument, and more than the number of entries is enough; so does the loading of
-- kernel modules, and more than the rank of a module in the order of dependencies is enough. All
-- other functions are structural recursions.
--
-- Not modelled. Of the supervisor: phases one and three of processGC and the back-off, the
-- goroutines and the event loop, the text of errors and log lines. Of the log tree: the
-- publishers and the formatting of entries, DN.Shorten. Of event values: Sync, and the ones in
-- etcd. Of the DHCP client: the options of the messages it sends, the getters of a lease and the
-- callbacks. Of the module manager: the reading of /proc/modules. Of the rest of the repository:
-- the parts that call the kernel, etcd, Kubernetes, databases or cryptographic libraries, whose
-- behaviour is not in the source, and the build and test tools.
pub mod BootParam
pub mod Cartesian
pub mod Dhcp
pub mod EventValue
pub mod Examples
pub mod JsonPatch
pub mod Kmod
pub mod LineBuffer
pub mod LogBuffer
pub mod Logtree
pub mod Msguid
pub mod OrderedMap
pub mod Prelude
pub mod Sinbin
pub mod Supervisor
pub mod Toposort
