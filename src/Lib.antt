-- ===== src/Lib.antt =====
-- monoio, a thread-per-core Rust runtime: the parts of monoio/src whose state and logic decide whether
-- tasks, timers, operations and event sources behave.
--
-- The task state machine (monoio/src/task/state.rs) is Task/State.antt: a word is a number below
-- 2 ^ 64, each transition is the closure that the code hands to its compare-and-swap loop, and the
-- loop takes the list of words that other threads put into the memory between its attempts.
--
-- The cells and handles of tasks (core.rs, harness.rs, waker.rs, join.rs and mod.rs of
-- monoio/src/task, and the queue of monoio/src/scheduler.rs) are Task/Cell.antt, Task/Harness.antt,
-- Task/Waker.antt and Task/Join.antt, over any form of the state word. The future, its output and
-- `Waker::will_wake` are parameters; any access to a cell that was given back is the outcome
-- `undefined`. Task/Life.antt is the relation of all orders in which the handles of one task act: a
-- call of a handle is one step, but the polls of the future and of the join handle and the drop of the
-- join handle are several, so that other threads come between them. Task/Life/After.antt says what each
-- step does on flags, and Task/Life/Through.antt which laws of the state word that needs. Fewer than
-- 2 ^ 58 handles are a condition of each step, since the count aborts the process there.
--
-- The slab (monoio/src/utils/slab.rs) is Slab.antt, its pages Slab/Page.antt: a slot that was never
-- written is a case of its own, and a read of one, as well as an unchecked index out of range, is the
-- outcome `undefined`. Sums and differences are those of 64-bit words, with the overflow checks of a
-- debug build as a parameter. Slab/Index.antt has the arithmetic of `get_page_id`; the loop of
-- `insert` runs on the number of pages that are left.
--
-- The life of an io_uring operation (monoio/src/driver/uring/lifecycle.rs, and the methods of
-- monoio/src/driver/uring/mod.rs that look an operation up) is Driver/Lifecycle.antt. It works on the
-- slab's own operations. Wakers and the data of dropped operations are type parameters, and
-- `Waker::will_wake` is a parameter. The calls into the kernel are not modelled: a completion is an
-- argument.
--
-- The queues of the io_uring driver, its park and the eventfd by which other threads wake it (the rest
-- of monoio/src/driver/uring/mod.rs, and monoio/src/driver/uring/waker.rs) are Driver/Uring.antt, for
-- a build with the `sync` feature and without `poll-io`. The answers of the kernel are arguments: a
-- submission is refused so many times for being busy, and then taken or failed. One that succeeds takes
-- all the entries of the queue: the code does not look at how many the kernel took, and what happens
-- when it takes fewer is not modelled. Driver/Uring/Park.antt
-- is the relation of the driver's steps, those of other threads and those of the kernel, each access
-- to shared memory a step of its own, outside the park also `submit` of the driver; memory is sequentially consistent.
--
-- Readiness (monoio/src/driver/ready.rs) is Driver/Ready.antt: the bits of a number below 2 ^ 8. The
-- sources that wait for it (monoio/src/driver/scheduled_io.rs), the poller of
-- monoio/src/driver/poll.rs and the operations of monoio/src/driver/legacy/mod.rs are
-- Driver/Dispatch.antt, over the same slab. mio's events, its answers to registrations and the
-- answers of system calls are arguments.
--
-- A descriptor that several owners share (monoio/src/driver/shared_fd.rs) is Driver/SharedFd.antt: the
-- owners, those of them that are in `close`, each close of the descriptor, and whether `try_unwrap` gave
-- it back. Runs are lists of what owners do, in any order. The registration of a new descriptor and the
-- conversions to polling and back of a build with `poll-io` are not modelled.
--
-- A timer (monoio/src/time/driver/entry.rs, `StateCell` and the cached deadline) is Time/Entry.antt,
-- the wheel (monoio/src/time/driver/wheel/level.rs and mod.rs) is Time/Wheel.antt. Timers are known by
-- numbers and live in a memory that is a function of them; an intrusive list of timers is the list of
-- their numbers, its front first. The poll loop of the wheel is not modelled. Time/Driver.antt has the
-- ticks of the clock and how long the driver parks (monoio/src/time/driver/mod.rs); the store of
-- `next_wake` and the processing of timers after the park are not modelled.
-- An interval (monoio/src/time/interval.rs) is Time/Interval.antt, over the deadline of its delay.
--
-- The intrusive linked list (monoio/src/utils/linked_list.rs) is LinkedList.antt: nodes are numbers,
-- and the memory is a function from them to their pointers. LinkedList/Refine.antt says which sequence
-- of nodes a list in memory stands for. The loop of `DrainFilter::next` takes fuel, for which the
-- length of the list is enough.
--
-- Readers and writers (monoio/src/io) are in Io.antt. A reader or a writer is a type of states with the
-- operations of its trait, so that whatever it does in the kernel is part of its state; Io/Stream.antt
-- says what the documentation of the traits promises. Io/Exact.antt, Io/WriteAll.antt and
-- Io/ReadUntil.antt are `read_exact`, `write_all` and `read_until`; Io/BufReader.antt, Io/BufWriter.antt,
-- Io/Prefixed.antt and Io/Copy.antt are the types and `copy` of monoio/src/io/util. BufReader and
-- PrefixedReadIo implement the interface of a reader. An interrupted call is
-- tried again, so that loops take fuel; it is enough where it covers the bytes to move and a bound on
-- the interruptions to come, which `ReadPatience` and its kin name. `memchr` is an argument.
--
-- Buffers (monoio/src/buf/io_buf.rs and slice.rs) are Buf.antt: a type with the operations of the
-- traits, with what is done through its pointers in place of those. A slice of a buffer is one again.
-- What is asked of a buffer is what the documentation of `set_init` says; `Vec` does it; boxed slices
-- and arrays ignore the call, and `BytesMut` only lets its length grow, so that they are not instances.
--
-- Prelude.antt has what the parts share: the outcome of code that may panic or be undefined, lists
-- under native indices, and the bits of words.
--
-- Not modelled: the calls into the kernel and mio, and sockets and files, which only make them; the
-- set-up of the runtime, its threads and its main loop; raw and vectored buffers and their calls;
-- the splitting and cancelling of I/O; the poll loop of the timer wheel, timeouts and sleeps; the
-- macros, and the bindings to a platform.
pub mod Prelude
pub mod Buf
pub mod Driver
pub mod Io
pub mod LinkedList
pub mod Slab
pub mod Task
pub mod Time
