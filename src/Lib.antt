-- ===== src/Lib.antt =====
-- The message router: producers, a first router, processors, a second router and strategies, each
-- with its thread, joined by single-producer single-consumer queues.
--
-- The parts, and the files that model them (paths are from the repository's root):
--
--   include/lockfree_queue.h    Queue.Defs: `LockFreeSPSCQueue<T, 2 ^ k>` with `try_push`, `try_pop`,
--                               `size`, `empty`, `capacity`, one method at a time; Queue.Threads: the
--                               same methods as steps of two threads, one for each access to shared
--                               memory, in any interleaving (atomic accesses sequentially consistent).
--                               Queue.Network: any threads that call the ends of any queues.
--                               Queue.Client gives the other parts the queue as an interface
--                               (`QueueApi`), which the ring buffer fills.
--   include/message.h           Message: the structure and its constructor, and the pair of producer
--                               and type under which the order is tracked.
--   include/config.h, src/config.cpp
--                               Config: the structures, `validate` and the look-ups; Config.Load:
--                               `load_from_file` over a JSON library.
--   src/producer.cpp            Producer, Producer.Manager.
--   src/stage1_router.cpp, src/stage2_router.cpp
--                               Router: the two classes are the same up to the rule that they ask.
--   src/processor.cpp           Processor, Processor.Manager.
--   src/strategy.cpp            Strategy, Strategy.Manager.
--   src/ordering_buffer.cpp     Ordering.
--   include/monitor.h, src/monitor.cpp
--                               Monitor (not part of the build), Monitor.Percentiles.
--   src/main.cpp                Main; Pipeline: all threads of a run at once; Pipeline.Shared: the
--                               same with the accesses of their calls interleaved.
--
-- `running_` and the thread's handle, which each component has, are a `Life` (Lifecycle); what the
-- managers do alike is in Manager. A loop (`producer_loop`, `routing_loop`, `processor_loop`,
-- `strategy_loop`) is a function `loop_step` from the component's state, its program counter and its
-- queues to the next ones; a step has at most one call of a queue's method. Theorems about a loop that
-- runs beside others let the other threads change the queues, `running_` and the handle arbitrarily
-- between two steps. Base.Output is what the program inserts into a stream, in order; how a stream
-- formats it is left to the library. Pipeline puts the loops together: a state holds every thread
-- with its program counter and every queue, and `Step` lets any thread make its next step, with
-- `running_` and the handle as main() may have left them; a call of a queue's method takes place
-- at once there. It also keeps two records of what has happened, the messages made and those
-- delivered. Pipeline.Shared has the same threads with calls that overlap: a thread's step there
-- is either a step without a call, or one access of a call that it is in the middle of, and the
-- accesses of all threads and queues come in any order (Queue.Network.SharedSteps, on the steps of
-- Queue.Threads). Queue.Network.Atomic and Pipeline.Shared.Refines relate it to Pipeline, whose
-- states the theorems about all threads are about. The clock and the random types are arguments of
-- the steps. yield() has no effect on the state and is left out. Of the output there are the
-- monitor's reports (Monitor.Reports) and the summary of main() (Main.Summary); the lines that
-- tell the progress are left out. Signals arrive between the tests of `g_running` (Main.Signals).
--
-- Numbers are natural numbers; the wrap of a 64-bit counter, of a mask and of a byte is written out.
-- An `int` is a `pos` or a `negsuc`. Times are nanoseconds and do not wrap. A call that the code makes
-- may return, end the process by std::terminate, or wait for ever (`Fate`); a join returns exactly if
-- `running_` is false, which takes it for granted that an inner loop runs out of messages in the end.
--
-- Fuel: `try_send_next` takes one unit for each message of its chain and one more; each call sends one
-- of them. `wait_loop` takes 10 units for each second of the duration and one more; each turn sleeps
-- for 100 ms.
--
-- Parameters: the JSON library (open, parse, members, conversions), `std::sort`, the clock, the product
-- of a size and a factor as a double, the statistics that the monitor keeps (`PerformanceStats` is
-- declared nowhere in the repository) and the managers' count of lost messages (nor is it).
--
-- Not modelled: the benchmarks, the progress lines on the console, the formatting of streams, memory
-- orders weaker than sequential consistency, the order in which a map iterates, and exceptions other
-- than those of load_from_file: that memory cannot be had for a queue or a component, or that a thread
-- cannot be started, which main() also catches with status 1.
pub mod Base
pub mod Message
pub mod Monitor
pub mod Queue
pub mod Config
pub mod Lifecycle
pub mod Strategy
pub mod Manager
pub mod Ordering
pub mod Router
pub mod Processor
pub mod Producer
pub mod Main
pub mod Pipeline
pub mod Samples
