-- ===== src/Lib.antt =====
-- pharos-host-upgrades: a Kubernetes DaemonSet that upgrades the operating system of each node's
-- host, one node at a time, and reboots the host if the upgrade requires it.
--
-- The program (main.go) probes the host (hosts.go, hosts/*), writes its configuration to a mount
-- that it shares with the host, and then runs upgrades once or on a schedule (scheduler.go). Each
-- run takes a lock in an annotation of the DaemonSet (kube.go, kube/lock.go), runs the upgrade on
-- the host by systemd (systemd/*), writes conditions of the node (kube_conditions.go, kube/node.go),
-- and may drain the node (kubectl/*), mark it with an annotation and reboot the host. A node that
-- comes back checks the mark, uncordons itself and releases the lock.
--
-- A function of the program is a value of `Prog` (Effects/Programs): it returns, or makes a call and
-- goes on from the answer. The calls (Effects/Ops) are those of client-go, D-Bus, the journal, the
-- file system, the clock and child processes; nothing is assumed of an answer unless a theorem says
-- so. A Go function that returns `(T, error)` returns `Result` or a pair with a `MaybeError`; a
-- method that writes its receiver or an object behind a pointer returns the new value. Pure library
-- functions, with the law for JSON times and the documented retry of client-go, are the fields of
-- `External`.
--
-- Which file models which part:
--   Prelude, Prelude/*      names of the libraries, Boolean tests, Go maps with the nil map, ℤ
--   Effects, Effects/*      errors, API objects, calls, programs, and the logic of monitors
--   External, Kube/Retry    libraries that are parameters
--   Kube/Lock               kube/lock.go; its children are on the owner of the lock (Ownership)
--                           and on the rounds and calls of the loop of `modify` (Rounds, Calls)
--   Kube/Node               kube/node.go; its children are on conditions and annotations
--   Kube/Client             kube/kube.go
--   Kubectl, Proc           kubectl/*.go, proc/stat.go; Proc/Fields on the lines that matter
--   Systemd/*               systemd/*.go: Exec, with its Steps and Outcome over the monitor of Bus,
--                           Journal, Hostname, Reboot
--   Hosts/*                 hosts/host.go (Interface), hosts/config.go (Config, with Replace
--                           and Sources),
--                           hosts/debian/host.go (Apt), hosts/ubuntu/host.go (Ubuntu),
--                           hosts/centos/host.go (Centos), hosts.go (Kinds, with FirstMatch)
--   Main/*                  kube_conditions.go (Conditions), kube.go (Kube, with Recovery,
--                           Backoff, Deadline, Report and Failure), config.go (Config), scheduler.go
--                           (Scheduler as one thread; Threads with its goroutines, and their
--                           Turns),
--                           main.go (Run, with RebootOrder over the monitor of Prepared, and Alone)
--   Protocol, Protocol/*    the rules of the lock as a monitor of one node's calls, and each part
--                           of the program against them; the turns of its scheduled runs (Turns) and
--                           the end of their window (Window)
--   Cluster, Cluster/*      any number of nodes that run the program against one API server
--   Progress, Progress/*    the program in a world that does its part: the API server answers and
--                           stores, conflicts are bounded in number, no deadline passes,
--                           and systemd and the host's files are in order. The
--                           lock (Locking), the writes of a node (Writes), the hosts
--                           (Machine), a run (Run, Marking, Reboot), the start of the
--                           program after a reboot (Recovery, Restart), and both (Cycle)
--   Tests, Tests/*          concrete libraries, surroundings and inputs
--
-- A loop whose end depends on the surroundings (the update of the lock, the acquiring of the lock,
-- the scheduler, the journal) takes the rounds that it may make and is `out_of_rounds` after them; the
-- loop of kube/lock.go makes a further round only after a conflict, so that more rounds than
-- conflicts are enough for it. The other loops are structural. Times and durations are nanoseconds
-- without overflow.
--
-- Not modelled: log output and the `String` methods that only format it; the parsing of the
-- arguments, a library's; the cron library, of which only the times at which it calls the job are
-- seen; the method `show` of systemd/exec.go, which nothing calls; the constants of version.go; the
-- Dockerfiles, manifests and scripts. A `DaemonSet` or `Node` object has the fields that the program
-- reads or writes and one field for all the rest.
pub mod Prelude
pub mod Effects
pub mod External
pub mod Kube
pub mod Systemd
pub mod Proc
pub mod Kubectl
pub mod Hosts
pub mod Main
pub mod Protocol
pub mod Cluster
pub mod Progress
mod Tests
