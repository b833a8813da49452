-- ===== src/Lib.antt =====
-- trio-asyncio: an asyncio event loop that runs on top of Trio. A program opens a loop inside a
-- Trio nursery; asyncio code puts handles into the loop's queue, and one Trio task, the main loop,
-- takes them out: it runs callbacks, keeps timers, and starts Trio tasks whose results go to
-- asyncio futures. Each part of the program below is a module with its state as a record and a
-- function for each operation, under the name that it has in the source.
--
-- Prelude, Exec: shared names and lists; methods that change a state and may raise, with the state
-- that is left when they do.
-- Trio, Heapq: what trio_asyncio/_base.py uses of Trio's memory channels and events, and of the
-- standard library's heapq: interfaces with the documented laws, and an instance of each.
-- Exceptions: trio_asyncio/_handles.py, concat_tb, collapse_exception_group and
-- collapse_aware_exception_split on trees of exceptions. BaseExceptionGroup.split follows the
-- standard library; the mark that derive gives a group is a parameter.
-- Handles: trio_asyncio/_handles.py, ScopedHandle and AsyncHandle with its result future. _run is
-- cut at its one await: run_begin, what other code does meanwhile, run_finish.
-- Loop: trio_asyncio/_base.py and _async.py. Handles and events are shared objects and stand in a
-- store under numbers. queue_handle, later, stop_loop and synchronize_start put work into the
-- queue; Loop.Iteration has _main_loop_one and _main_loop, Loop.Lifecycle __init__,
-- _main_loop_init, _main_loop_exit and close. Callbacks are programs: a list of calls of the loop's
-- methods and how they end. What the world does during an iteration, the clock and other tasks'
-- calls among it, is a Tick; loops that wait for the world run over a list of ticks, with a bound
-- for the ticks that the main loop needs to end once it is told to stop. Loop.Extends, Actions,
-- Running and Progress say what an operation keeps; Dealing, Exits, Stopped, Taking, Stopping,
-- Termination and Requesting lead to the theorems about stop, Draining and Leaving from there to the
-- end of _main_loop_exit, for callbacks that queue nothing more; Asking has time, the state that
-- repr shows and the methods that only raise; Tagging is about sniffio's library,
-- Returning about what _main_loop_exit leaves where it returns, for any callbacks. Spec describes
-- one iteration on a list of objects, a collection of timers and a trace, without channels or heaps.
-- Descriptors: trio_asyncio/_base.py, readers and writers, the task behind each, autoclose and
-- _cancel_fds; Descriptors.Masks and Installing lead from add_reader and add_writer to the latter.
-- AsyncGens: trio_asyncio/_base.py, AsyncGeneratorDispatcher.
-- Signals: trio_asyncio/_base.py, add_signal_handler, remove_signal_handler, _handle_sig.
-- Policy: trio_asyncio/_loop.py, the event loop policy and the functions that replace asyncio's, as
-- one thread sees them; asyncio's own policy and a policy of the user's are behind the interface
-- Host. Policy.Patching has what importing the file does to asyncio's modules.
-- Entrances: trio_asyncio/_base.py, the methods by which work enters a loop: trio_as_future, which
-- joins Loop and Handles, run_trio_task, run_aio_coroutine, which joins Loop and Futures,
-- call_soon_threadsafe and run_in_executor with TrioExecutor.
-- Opening: open_loop and run in trio_asyncio/_loop.py, with the loop's methods, Trio's nurseries
-- and the body of the `async with` as parameters: the order of the steps and the try statements
-- around them, and the task that finalizes asynchronous generators, which may never set the event
-- that open_loop waits for; the other steps return. Opening.OnLoops fills the methods in with the functions of Loop.
-- Sync: trio_asyncio/_sync.py. The work that runs in Trio's greenlet is any function on the state;
-- what happens between two switches is one step. Sync.Running has run_until_complete; its loop over
-- the remaining callbacks has a number of rounds, with a result of its own where they run out. Sync.Completing follows a future from
-- run_until_complete to its result. Sync.Leaving has the `with` statement and
-- close, with asyncio's own close as a parameter.
-- Adapters: trio_asyncio/_adapter.py. allow_asyncio works on coroutines as trees of what they yield
-- and what they do with each answer, so each run of one is finite; Adapters.Wrappers has
-- aio_as_trio and trio_as_aio.
-- Children: TrioChildWatcher in trio_asyncio/_loop.py, _compute_returncode in
-- trio_asyncio/_child.py; Children.Choosing has the watcher of TrioPolicy; Children.Waiters has
-- ProcessWaiter, where a step is what runs between two awaits, or what the waiting thread does once
-- its waitpid returns. The operating system is the interface Kernel. Children.Waiters.Windows has
-- what ProcessWaiter does on Windows. Children.Exits is TrioChildWatcher._waitpid on these waiters,
-- Children.Spawning _make_subprocess_transport of trio_asyncio/_base.py on the loop of Entrances;
-- asyncio's transport is behind parameters.
-- Deprecation: trio_asyncio/_deprecate.py, the warnings with their texts, wrapped functions and
-- attributes of a module.
-- Package: trio_asyncio/__init__.py, the table of the package's old names and the reading of one,
-- with enable_attribute_deprecations.
-- Futures: trio_asyncio/_util.py, run_aio_future; Futures.Generators has run_aio_generator and
-- run_trio_generator.
-- Metadata: trio_asyncio/_util.py, fixup_module_metadata, on a store of objects that refer to each
-- other in any shape. Its recursion has fuel; each level visits one more object, so that one for
-- each object and one more are enough.
--
-- Not modelled: threads, greenlets and subprocesses themselves. Python's numbers for times are
-- integers here. Texts of errors and reprs are left out, and those of warnings but the
-- deprecations. setup.py and docs/source/conf.py are settings for tools.
pub mod Prelude
pub mod Exec
pub mod Trio
pub mod Heapq
pub mod Exceptions
pub mod Handles
pub mod Loop
pub mod Descriptors
pub mod AsyncGens
pub mod Signals
pub mod Policy
pub mod Entrances
pub mod Opening
pub mod Sync
pub mod Adapters
pub mod Children
pub mod Futures
pub mod Metadata
pub mod Deprecation
pub mod Package
