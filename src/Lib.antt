-- ===== src/Lib.antt =====
-- TraceFox: an agent in C that samples a Linux host and sends each sample as one frame over UDP, and the
-- parser in Python with which the server reads the frame.
--
-- Base, Bytes: lists, tests, C strings, what stdio reads (Base/Stdio: `fgets`, `sscanf`), and big-endian
-- words (`buf_put_be_u16` and its like in agent/include/tracefox.h).
-- Tlv: the frame writer (agent/src/tlv.c); Tlv/Put says what `tlv_init` and `tlv_put` append.
-- Collector: what the collectors share (`struct tf_collector` in agent/include/tracefox.h).
-- Cpu, Mem, Net, Disk, Fs, Proc: the collectors (agent/src/cpu.c, mem.c, net.c, disk.c, fs.c, proc.c). Each has
-- its context as a record and a function of the source's name per function of the source.
-- Proc has a child for each part of proc.c: History and Threads, the ticks of the sample before; Scan, the watched
-- processes under /proc; TaskStat and Rss, the files of a process; Candidates and Group, the threads of a group; Collect,
-- `proc_collect`; Emit and Push, the entries. Proc/Group/Tally describes the threads of a group apart from the code that
-- counts them, Proc/Scan/Kept the slots that a scan leaves, Proc/Collect/Kept the context that a sample leaves, and
-- Net/Reported the lines of /proc/net/dev apart from the code that stores them.
-- Config: the configuration file (agent/src/main.c, `load_config_file`), and in Config/Bounds the bounds of the settings.
-- Agent: a frame of the main loop (agent/src/main.c): the label, then the entries of the collectors in the order
-- of agent/include/collector_list.def. Agent/Frame says which frame is built, Agent/Sample what a sample leaves in the
-- contexts, Agent/Received what the server recovers from it, Agent/Clock when the next sample is taken.
-- Agent/Options: the sources of the configuration and the command line. Agent/Setup: the state of the program, its set-up
-- and its release (`init_agent_state`, `destroy_agent_state`); Agent/Resolve: the address of the server (`resolve_addr`). Agent/Run: `main`, one step per round of its loop:
-- a sample, a reload or the end. Agent/Run/Capture is the reader of the output file (agent/test_thread_capture.py,
-- `read_frames`), and the other children of Agent/Run what the loop keeps, writes and
-- sends, and how it ends.
-- Protocol: the parser (server/tracefox_protocol.py), with the exceptions that it raises as values.
-- RoundTrip: each push function against the branch of the parser that reads its entry.
-- Tests: concrete states.
--
-- The files that the agent reads under /proc, the clock, what `statvfs` answers, the time of day, the signals and the results of
-- the system calls are arguments, those of the main loop one record for each round, in which `statvfs` gives one answer
-- for one name; `qsort`, `getopt` and the reading of doubles are parameters, each one function for the whole run, and that
-- `getopt` may reorder the arguments in argv is not modelled. Of `qsort` it is assumed that it permutes its elements and
-- sorts them by an order.
-- Machine words wrap around where the source's do. A fixed array with a count is a
-- list of the array's length and the count, except where a file says that it holds the first elements only.
-- Percentages stay the integers, in tenths, that the server divides. Loops over a list of lines or of directory entries
-- are structural. The loops over /proc/meminfo, /proc/mounts and /proc/<pid>/status run on fuel, the file's length, and
-- so does the loop of the reader over the output file; the parser's loop over entries runs on the frame's length, since
-- every round takes two bytes. The main loop runs over a list of rounds, of any length.
-- Nobody but the agent writes the output file, every reading of the command line names the same one, and writing does
-- not fail. A socket only takes a frame or refuses it.
--
-- Not modelled: logging and printing, which are output for debugging; the resolution of addresses in static builds; the
-- forwarder to the metrics database, the Wireshark dissector and the agent for Windows.
pub mod Base
pub mod Bytes
pub mod Tlv
pub mod Collector
pub mod Cpu
pub mod Mem
pub mod Net
pub mod Disk
pub mod Fs
pub mod Proc
pub mod Config
pub mod Agent
pub mod Protocol
pub mod RoundTrip
pub mod Tests
