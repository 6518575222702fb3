-- ===== src/Lib.antt =====
-- kaiu, a C++ library of promises, promise streams, event loops and a decimal type, and the
-- claims that make its parts correct. A promise is settled once, by its producer, and runs the
-- callbacks that its consumer binds to it; a promise stream adds data that come before the
-- result; combiners make one promise of many. Event loops run the events that settle promises, on
-- queues that the threads share. Decimals are the load that the library tests its loops with.
--
-- Base holds the library names that all files share, Boolean tests, lists measured by native
-- numbers, and Action: code that changes a state and returns or throws. Then each part:
--
-- * Stream (promise_stream.cpp, promise_stream.tcc, promise_stream/): Types holds the members of
--   PromiseStreamStateBase and PromiseStreamState in one record, with the history of the data and
--   of the proxy promise beside them; StateBase the transitions (set_state, update_state, and the
--   set_ functions that end in it); State the buffer, the consumer and the public operations. A
--   history is a list of events of a producer, a consumer and the thread that settles a
--   consumer's promise, in any interleaving; each runs under the lock and so is one step. Table,
--   Flags, Order, Drain, Chained, Operations, History, Stopping and Failure hold what follows.
-- * Promise (promise.cpp, promise.tcc, promise/): Types holds a promise's members as a cell and
--   the shared pointers as numbers into a store of cells; State settling, binding, running
--   callbacks and then; Operations the public ones; Chain the overloads of then, except and
--   finally, the factories and combine_finalizers; Pack the packs of callbacks and their
--   operators. Outcomes says what a callback comes to; Settling, Running, Replies, Attached,
--   Followed, Then, Binding and Finalizers hold what follows. A callback acts on promises only by
--   the promise that it returns, which may be the last of a chain of calls of then. The results
--   of all promises have one type.
-- * Combine (promise.tcc, promise/combiners.h, tuple_iteration.h): the state that the combined
--   promises share, and the calls of their callbacks in any order. State is that of a list, Tuple
--   that of a tuple, over a list of types; Slots, Steps, Schedule and Outcome are about the list,
--   and Erased takes the tuple to a list of one type, so that Gather and Typed need not repeat
--   them.
-- * Loop (event_loop.cpp, event_loop.h, concurrent_queue.tcc, scoped_counter.tcc,
--   starter_pistol.cpp, lock_many.tcc): Queue, Counter and Pistol what is done under a lock,
--   Locks the rounds of trying to lock many mutexes, Parallel the threads as phases of their
--   loop, Pools the pools, the constructor and push, Joining the handling of exceptions, join and
--   the destructor, Synchronous the other loop. What a thread does under the lock of its queue is
--   one step, since join looks at the queues under all their locks. The counter is an int of 32
--   bits, kept as its residue.
-- * Functional (functional.h, functional.tcc, shared_functor.h): Curried holds curried functions
--   and the calls that capture arguments and invoke, with a memory of variables, since apply
--   captures by reference and << by value; Delivery which values reach the function; Shared the
--   functor that copies share.
-- * Task (task.h, task.tcc): State holds the call of a task, its action and its proxy as events
--   of the loop, and what a callback pushes; Posting, Refines and Course what follows.
-- * Managed (self_managing.h): State holds an object with its lock and its reference to itself,
--   and the threads that call it, of which each has a helper; the destructor of a helper is two
--   steps. Totals counts threads; Lifetime, Release and Safety hold what follows.
-- * Decimal (decimal.cpp, decimal.tcc, decimal.h): the digits as a list, the least significant
--   first. Digits, Arithmetic, Convert and Parallel hold the members; Value says which number a
--   decimal stands for, and the other files relate each member to it.
-- * Assertion (assertion.cpp, assertion.h): State holds the table of tests and the calls that set
--   their results, Results which of them stands; Object its constructor, prints and destructor;
--   Report what is printed, in pieces, and Printed and Summary that of a whole table.
--
-- Where the source recurs without a bound that its data show, the model takes fuel. Handing over
-- data has as many rounds as data in the buffer and one; the settling of promises is given the
-- depth of the calls; the loops on decimals are given the number that they count down; the rounds
-- of locking and the loop on events are given as many as a theorem says are enough. A debug build
-- is the parameter `safe`: it switches on the checks that SAFE_PROMISES and SAFE_PROMISE_STREAMS
-- switch on in the source.
--
-- Not modelled: task streams, whose asynchronous state names members that its base class does not
-- have and so cannot be compiled; the forwarding of streams; signal handlers and colours of the
-- test assertions; types and overloads, which are settled at compile time; destructors that only
-- check; and what the operating system does to threads. Waiting is an answer of the operation
-- that would wait.
pub mod Assertion
pub mod Base
pub mod Combine
pub mod Decimal
pub mod Functional
pub mod Loop
pub mod Managed
pub mod Promise
pub mod Stream
pub mod Task
