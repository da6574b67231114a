-- ===== src/Lib.antt =====
-- The pager library of the Hurd (libpager) in its C++ form, with the worker pool that hands it its
-- requests, and netmsg, which carries Mach messages over a network stream and shares an iterator over
-- such messages with the library.
--
-- A pager serves the pages of one memory object to any number of kernel clients. Clients send it
-- requests (data_request, data_unlock, data_return, lock_completed); it answers with data, errors
-- and lock requests. For every page it keeps who has the page, who waits for it and in what state
-- it is; one mutex guards all this, and methods release it while the filesystem reads or writes a
-- page and while they wait.
--
-- Parts, and the files that model them:
--   Base            lists, sets of ports (std::set), ordered maps (std::map)
--   Message         machMessage.h: mach_msg_iterator and machMessage::operator[]; Message/Value:
--                   mach_msg_data_ptr, the elements of an item, mach_call
--   Pagemap/Entry   libpager/pagemap.h: pagemap_entry_data, its fields and accessors
--   Pagemap/Order   its operator<
--   Pagemap/Intern  pagemap_set, pagemap_entry and pagemap_vector: pages share equal data. Refines
--                   relates them to a plain vector of page data, which the pager below works on
--   Pager/State     struct pager, its records, and the messages that leave it as a log of events
--   Pager/Step      a method as a computation that may release the lock, and the primitives of the
--                   methods: reading and changing the pager, sending, asserting, calling out
--   Pager/Waitlist  libpager/pagemap.cc: internal_flush_request, service_WAITLIST,
--                   send_error_to_WAITLIST, finalize_unlock
--   Pager/Locks     internal_lock_completed, lock_completed
--   Pager/Request   data_request, data_unlock, get_error
--   Pager/Writeback service_first_WRITEWAIT_entry, data_return
--   Pager/Clients   object_init, drop_client, object_terminate, dead_name, ~pager
--   Pager/Control   lock_object, change_attributes, shutdown
--   Pager/Rpc       the server stubs and the library's calls, libpager/*.cc one per file
--   Pager/Memcpy    libpager/pager-memcpy.c: pager_memcpy with its nested functions; Range: copies of
--                   ranges; Loops, DoCopy: the loops and do_copy; Total: the whole function;
--                   Paged: the function with pager::get_error
--   Pager/System    all threads of a pager: stretches between two releases of the lock, in any order
--   Pager/Invariant the invariant and, for each method, that it keeps it
--   Demuxer/Queue   libpager/queue.h: the linked queue of requests, on a memory of pointers
--   Demuxer/Workers libpager/demuxer.c: pager_demuxer, worker_func, pager_inhibit_workers and
--                   pager_resume_workers; Demuxer/Workers/System: their threads in any order, one
--                   stretch that holds the lock at a time, for any number of workers
--   Demuxer/Reply   what worker_func does with the reply of a server routine
--   Netmsg/RunQueues netmsg/netmsg.cc: RunQueues, for each port a queue and the threads that serve it; each
--                   statement of a thread is a step, as nothing locks them
--   Netmsg/Session  class netmsg: its maps, the calls of the kernel, and a method as a computation
--                   that makes such calls
--   Netmsg/Translate translatePort2: a port of the remote's name space becomes one of ours
--   Netmsg/Deliver  swapHeader, translateHeader, translateMessage, tcpBufferHandler
--   Netmsg/Transmit translateForTransmission, ipcBufferHandler
--   Netmsg/Serve    the constructor, the start of ipcHandler, and a session's messages in any order
--   Netmsg/OutOfLine transmitOOLdata, receiveOOLdata
--   Netmsg/Stream   tcpHandler: the messages that it reads from the network stream and hands on
--   Netmsg/Audit    auditPorts
--   Netmsg/Debug    dprintMessage, as a list of tokens
--   Netmsg/MsgIds   netmsg/msgids.c: the table of message names and its lookup; Options:
--                   parse_msgid_list, scan_msgids_dir, parse_opt
--   Netmsg/Rely     what a method keeps whatever the kernel answers; Netmsg/Ports: what the maps owe
--                   each other, and what becomes of rights, requests and notifications that cross
--   Tests           runs at concrete inputs
--
-- Names follow the source in lower case: service_WAITLIST is service_wait_list, ACCESSLIST is the
-- field access_list. `tmp_pagemap_entry` is a value that a method loads, passes along and stores.
-- What the filesystem answers (pager_read_page, pager_write_page, pager_unlock_page,
-- pager_notify_evict, pager_report_extent) and what the kernel answers (port names, messages) are
-- inputs of the model: a released lock is followed by arbitrary answers and by an arbitrary pager,
-- or, in theorems about a thread that runs alone, by the pager as it was left. A failed assert,
-- std::out_of_range and the use of an erased element end a method as a fault.
--
-- The two sides of a network stream are two sessions; a message is a header with the parts of its bits
-- that the program uses, and items, of which those of ports hold names. The kernel's answers to a
-- session's calls are a list of inputs or, in the invariant, arbitrary but for mach_port_allocate,
-- which answers a name that is not null and that the session's maps do not use. A handler of a session is one step: the
-- source marks the handlers as not locked. MACH_MSG_TYPE_PORT_SEND is MOVE_SEND to the kernel.
--
-- Bounds and fuel: port names, offsets and addresses are natural numbers, and sums and products that
-- form an offset or an address wrap at 2 ^ 32. Two loops run on fuel, since other threads may extend
-- what they walk over while the lock is free: service_writewait over WRITEWAIT and drop_locks over
-- outstanding_locks. Running out is a fault of its own; the invariant holds for every fuel. For
-- drop_locks with no lock outstanding, one unit is enough; for service_writewait in a thread that runs
-- alone, one unit more than there are blocks. The lock counts and the number of
-- outstanding replies are not bounded. The loops of pager_memcpy run on one unit more than the bytes
-- that are left to copy, and each round copies at least one; tcp_handler runs on any fuel, of which one
-- unit more than the stream has bytes is enough, since a message has at least a header; dprintMessage
-- runs on one unit more than the message has bytes, since an item has a type descriptor.
--
-- pager_memcpy works on the bytes of the task and of the object as two functions. Pages have 4096 bytes.
-- vm_map, vm_copy, the faults of memcpy and pager_get_error answer as parameters; a fault is at a byte
-- that is to be copied, its sc_error is EKERN_MEMORY_ERROR or not, and the memcpy may have copied any of its
-- bytes by then. The network stream is the
-- list of its bytes; what a header and the descriptors of a message say is a parameter, and a read with
-- a negative count ends the run. The hash table of message names is an interface with the law that an
-- added entry is found; message numbers are not negative.
--
-- Not modelled: libports; the creation of the demuxer's threads; the choice of a message's routine
-- (the routines enter Pager/System in any order); pager_create_alloc; the bodies of
-- generated stubs; the warnings on stderr; the mutex of pagemap_set, each assignment to the set
-- being one step; of netmsg the sockets, the options of the program, copyOOLdata, ddprintf and
-- porttype2str; the tests and examples.
pub mod Base
pub mod Message
pub mod Pagemap
pub mod Pager
pub mod Demuxer
pub mod Netmsg
pub mod Tests
