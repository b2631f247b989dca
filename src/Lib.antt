-- ===== src/Lib.antt =====
-- Verification of boost-coro, a library of stackful coroutines for C++.
--
-- The runtime (boost/coroutine/coroutine/coroutine.h and coroutine.cpp) switches between contexts that
-- each have a stack of their own. A coroutine has a state, two words of flags (events and messages), a
-- parent, a list of children, and a queue of messages; `resume` and `yield` move the one thread from
-- context to context. The byte buffer `var_buf_t` (boost/coroutine/util/var_buf.h) is a chain of pages
-- that the sockets and the messages use.
--
-- Coroutine/State     the objects, the thread's data, the calls of the public interface
-- Coroutine/Flags     event_set, event_add, event_del, event_chk and their msg_ twins; Flags/Frame: what
--                     they leave alone; Flags/Chain: the notification of the ancestors
-- Coroutine/Machine   resume, resume_childs, yield, child, mput, mbroadcast, mget, execute, transfer and
--                     transfer_pre, and the machine that runs them
-- Coroutine/Walk      the functions of the machine by what they write; Quiet: those that do not switch;
--                     Frames: frames; Posting: the frames that put messages, and what they put;
--                     Steps: steps
-- Coroutine/Busy      the states of all coroutines across every step of the machine, in Steps
-- Coroutine/History   the messages of all coroutines across every step of the machine; Childs: who keeps
--                     the lists of children; Posts: what mput and mbroadcast add
-- Coroutine/Resume    a switch and the way back
-- Coroutine/RoundRobin  children that only yield, and the round robin they are compared with; Hands: runs,
--                     and to whom a context hands the thread; Loop: rounds over a queue, for any
--                     context; Turn, Queue, Ends: resume(0) of the main context; Nested, Children: the
--                     end of execute of a coroutine
-- Coroutine/Mailbox   the queue of messages
-- Coroutine/Network   children that send each other messages and events as a network of processes, and the
--                     worlds that stand for it; Queue: addresses; Steps: steps of the machine; Mail: a message
--                     or an event for another one; Turn, Run, First: a turn; Refines: resume(0) over many turns;
--                     Settles: where a network ends; Spins: a loop that does not; Deadlock:
--                     what resume(0) comes to
-- Coroutine/Names     _coro_name, and the two functions c_str
-- Coroutine/Memory    this_cothread::malloc and free, coro_context and the destructor, over the allocator
-- Trace               trace_t (boost/coroutine/util/trace.h)
-- VarBuf/State        vbuf_page_t and the pointers of var_buf_t
-- VarBuf/Ops          the member functions of var_buf_t
-- VarBuf/Contents     well-formed buffers and the bytes they hold; Write, Reserve, Taken, Read,
--                     Reset: what the operations do to them
-- VarBuf/Position     rd_position and wr_position
-- VarBuf/Queue        the buffer as a queue of bytes
-- VarBuf/Views        the vectors for readv and writev, and the counts of pages
-- VarBuf/Sizes        rd_size() of the buffer, and page_tail
-- VarBuf/Search       strnstr, find, read_by_endof_delimer, read_by_line; Lines: a line inside a page;
--                     Overrun: where the search leaves the readable bytes
-- ByteQueue           what a byte buffer promises, as an interface; Pages: var_buf_t keeps it
-- LinkedList          list_t (boost/coroutine/util/list.h), the children's list, over nodes in a heap;
--                     Cells: chains of nodes; Refines and Push: its operations are those of a
--                     sequence
-- Allocator           linked_allocator_t (boost/coroutine/util/linked_allocator.h), the memory of stacks
--                     and of pages; FreeList: malloc and free; Expand: a new chunk;
--                     Destroy: the destructor
-- Message             message_t (boost/coroutine/coroutine/message.h); Appends: what a message holds
-- Coreactor           coreactor_t (boost/coroutine/coroutine/coreactor.cpp), which makes a
--                     coroutine wait for an event; Triggers: what set_io and cancel leave in its map;
--                     Calls: its use of the flags; Timeouts: the timeval, set_timeout and usleep;
--                     Loop: run
-- Cothread            the threads (boost/coroutine/cothread/cothread.h and cothread.cpp), their children and
--                     join; Start: the options, resume, execute, the channels; Join: how often one is
--                     joined; Reaped: the loop over the children; Restart: a second resume
-- Coasio/Address      inet_addr_t, unix_addr_t and sock_addr_t (boost/coroutine/coasio/addr.h);
--                     Decimal: ports as text; Parse: to_sock_addr; RoundTrip: there and back;
--                     Order: the comparisons
-- Coasio/Socket       cosocket_t (boost/coroutine/coasio/cosocket.h): the calls that move bytes and their
--                     loops; Connection: the options, create, connect, accept, close and the
--                     addresses; Buffers: send_vbuf and recv_vbuf; Retry: interrupted calls; Transfer: what is returned
-- Coasio/Service      acceptor_t and connector_t (boost/coroutine/coasio/acceptor.h, connector.h); Loop: the
--                     clients; Connects and Outcomes: how the two end; Stop: stop
-- Coasio/Script       a system that answers as it is told, for the tests
-- Coroutine/Queries   child(), parent(), event_chk and event_equal
-- Base                names shared by all, lists measured by native numbers, faults, bits of flag words,
--                     arrays of characters
--
-- The machine. C++ code that can switch contexts cannot be one function of the model, since other code
-- runs in the middle of it. Each such function is cut at its calls of functions that may switch, and
-- what is left of it is a frame. A context is a stack of frames, innermost first, and `step` runs the
-- innermost frame of the context that has the thread. `coro_create` and `coro_transfer` of the library
-- libcoro, which is not part of this code, appear as what their documentation promises: a new context
-- starts in `execute`, a switch leaves a context where it is and goes on with the other where that one
-- stopped. The function of a coroutine, and the main program, is a list of calls of the interface.
-- Objects live in a heap from the start of a run; one that is destroyed is gone, and a use of it is
-- the fault `dangling`. A null dereference, an assertion that fails and a read
-- outside a page's memory are faults as well.
--
-- The network. Children of the main context that have no children of their own are compared with a
-- network of processes, each a list of actions with a mailbox: to give way, to send, to receive, to wait
-- for an event, and to tell another process that its event has come, which are the calls that `mput`,
-- `mget(msg, true)`, `set_io` and the reactor's callback make of the runtime. A timeout, which sets one
-- more flag, is not among the actions. A turn of the network runs its first process up to where it gives
-- way or waits; the machine takes many steps for that, and some more for each round of `resume(0)`.
--
-- The system. The sockets are a client of the record `System`, which has a field for each call of the
-- system that they make, over a state that nothing is known of; `errno` is read from that state, and
-- the wait of `set_io` is a field as well, since anything may happen until the coroutine goes on; it may end
-- in a fault, as `set_io` of the reactor does without a current coroutine or with a trigger there. What
-- `readv` has put into memory is read from the state, and goes where its vectors point. The network's
-- conversions are the record `Network`; where a proof needs that htons and ntohs, or inet_pton and
-- inet_ntop, are inverse, that is the record `IsNetwork`. The virtual functions of the acceptor and the
-- connector are records too, and their calls are listed as events.
--
-- Bounds. event_add and msg_add call themselves on the parent; the field `created`, the number of
-- objects, bounds that depth, and is enough on every chain of parents in which no object is there
-- twice. The loop of `reserve` has fuel `sz`, which is enough because each round adds at least one
-- byte. `clear` of a list has `_size` rounds, which is enough because each one takes away a node. The
-- loops round an interrupted call and the acceptor's loop have fuel, since only the system ends them: a
-- pass for each interruption and one more, or a round for each client and one more, is enough. The
-- loops over a thread's children have a round for each child and a last one, the allocator's destructor
-- one for each free block. A port prints as five digits at most. The other loops are structural
-- recursions on the chain of pages. Flag words are the 16 bits of stat_t. The sizes of var_buf_t are
-- natural numbers: in well-formed buffers offset_rd ≤ offset_wr ≤ page_size, so that no difference of
-- the code wraps; sums of sizes are taken to fit size_t, and allocations to succeed.
--
-- Not modelled: libev and libcoro, which are copies of other projects; the calls of trace, since a line
-- on the standard output changes nothing of the runtime; the locks of the allocator and of the trace.
-- In the runtime the list of children is a List, and a context's memory is always given; that it comes
-- from the allocator is said by Coroutine/Memory. Where a message's number is signed, its bits stand for
-- it. The binding of arguments in the constructors of threads and coroutines is boost::bind. What the
-- reactor uses of the event library, and the threads of the system, is a parameter of their definitions,
-- and so are the texts that %p, %zx and the format of a trace print.
pub mod Allocator
pub mod Base
pub mod ByteQueue
pub mod Coasio
pub mod Coreactor
pub mod Coroutine
pub mod Cothread
pub mod LinkedList
pub mod Message
pub mod Trace
pub mod VarBuf
