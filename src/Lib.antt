-- ===== src/Lib.antt =====
-- A small kernel for the x86, with its thread queues and scheduler, its processes, its physical frames
-- and page tables, its console and its keyboard buffer, and locks of its user-level thread library. The program keeps its state in global variables and shared
-- objects; here each part's state is a record, and a function that changes it takes the old state and
-- returns the new one.
--
-- The parts and where they are modelled:
-- - kern/datastructure/linked_list.c, the doubly linked lists that every queue is: LinkedList.antt,
--   over a store that holds the fields of every node and list by address, so that lists alias. Shape
--   says when a list object stands for a sequence of nodes; Insert, Unlink, Delete and Move prove
--   what the operations do to it and to other lists.
-- - kern/inc/control_block.h and kern/locks/mutex.c, the threads, the two queues and the mutexes:
--   Kernel.antt. A thread is known by the address of the list node in it, which is how the kernel
--   finds it through list_entry. Kernel/Queues.antt is about the two queues together. A call
--   returns, reads through NULL, or meets a mutex that is held; what a thread does while it waits
--   for a mutex is not modelled, and no theorem is about it.
-- - kern/process/scheduler.c and kern/hardware/timer.c: Sched.antt. do_switch, which is in assembly,
--   is the change of the running thread: where it continues depends on the thread's state alone.
--   Wake, Park, Switch, Schedule and Idle prove what schedule does. The loop over the blocked queue
--   has as much fuel as that queue is long and one more, which is shown to be enough; so has the
--   search for a thread id.
-- - kern/thread/sys_thread_management.c: Thread.antt, for yield, deschedule, make_runnable, gettid
--   and sleep with their locks. The value behind deschedule's pointer, once the two tests on the
--   pointer have passed, is an argument. A call that gives up the processor is modelled up to the
--   switch and then with the result that its caller gets. Swexn.antt is the call swexn, with the
--   registers that its pointer is to as an argument. Swexn/Deliver.antt is
--   kern/exception/exception_handler_real.c for a thread that has a handler, over the words of the
--   user's memory.
-- - kern/process/sys_life_cycle.c: Process.antt, for wait and set_status. wait is in two parts: up
--   to its call of schedule, and from its return on. The search through the children has as much
--   fuel as their list is long and one more, which is shown to be enough. Vanish.antt is the call
--   vanish. The local variable `threads` is a list object of its own, at an address of its own; the
--   loops have as much fuel as that list is long and one more. Spawn.antt is the call thread_fork:
--   what the allocators return is an argument, and that one of them fails, which the code does not
--   test for, is left out.
-- - kern/thread/thread_basic.c: Create.antt, over the state of Spawn, with what the allocators and
--   get_eflags return as arguments.
-- - kern/syscall/sys_misc.c and kern/loader.c: Files.antt. The table of files that the build makes
--   is an argument, and a string is the list of its characters.
-- - kern/handler_install.c: Install.antt. The addresses of the entry points, which are in assembly,
--   are an argument.
-- - kern/memory/vm_routines.c: Frames.antt has the free list of physical frames, Paging.antt the
--   page tables over it, words by the address of their page. The loop of acquire_free_frame has fuel
--   for one round more than there are frames, which is shown to be enough where a free frame is
--   left. The pages that memalign returns are an argument, on which the theorems that use it state
--   what they rely on; that memalign fails is left out. Clearing a page goes through the page
--   directory that is loaded and is recorded as the virtual page that has been cleared.
--   Paging/Protect.antt has map_readonly. Paging/Range.antt and Allocate.antt are about a range of
--   pages that is mapped page by page, Free, Ranges and Destroy about ranges that are taken away, by
--   free_pages and by the end of a process.
-- - kern/memory/sys_memory_management.c: Memory.antt, over Paging, for the calls new_pages and
--   remove_pages. The process's allocations are the sequence of the nodes in its list.
-- - kern/process/sys_fork.c: Fork.antt, the part that copies the parent's pages over Paging. The
--   pages that become the child's tables hold what they held before. memcpy is recorded by the
--   physical addresses to which its two virtual ones are translated, through the parent's directory
--   and the translations that the processor keeps until set_cr3. Entry is about the search for a
--   vacant slot, Translate about these addresses, Copy about one page, Table about one table.
-- - kern/hardware/console.c: Console.antt. The video memory is a function of the offset from its base,
--   and the port writes change the cursor registers of the CRTC. What C leaves open about
--   `row = row ++` is an argument.
-- - kern/hardware/keyboard.c: Keyboard.antt, the ring of typed characters, and Input.antt, the
--   handler, to which process_scancode is an argument.
-- - kern/syscall/sys_consoleIO.c: Input.antt. readline is in two parts: up to the call of schedule,
--   and from its return on, when the ring may have changed. Its loop has fuel for buf_len rounds,
--   which is shown to be enough. The tests on a pointer that a call is given are an argument.
-- - user/libthread/spinlock.c and mutex.c: User/Mutex.antt, any number of threads that take steps in
--   any order, one shared access at a step.
-- - user/libthread/rwlock.c: User/RwLock.antt, for calls that run one after the other over the
--   counts of the semaphores (semaphore.c); a call that would wait is a value of its own, behind
--   which no call goes on.
-- - user/libthread/thread_mgmt.c and thr_internals.h: User/Threads.antt, over the list of threads as
--   the sequence of its nodes. What a thread does under one lock is one step, and the threads'
--   steps, in User/Threads/Steps.antt, come in any order; a wait on a condition variable may end at
--   any time. The mark of an exit and the vanish behind it are two steps. Whether mutex_destroy and
--   cond_destroy find a thread_t's locks in use, and so end their caller, is an argument of each
--   step; a caller that vanishes so keeps the list's lock. A freed thread_t is remembered, and no
--   step reads one or runs on a stack that has been removed. Size is about the loop in thr_init,
--   whose fuel is an argument.
-- - user/libautostack/autostack.c: User/Autostack.antt. What new_pages and swexn answer are arguments.
-- Integers are natural numbers below 2 ^ 32 with the wrap-around written out; an int from 2 ^ 31 on is
-- negative. Base.antt has the shared tests, stores and lemmas on lists. Examples.antt and the modules
-- below it hold the theorems at concrete states.
--
-- Not modelled: the assembly (context switch, traps, stubs), the boot code, process creation, the
-- control blocks that fork makes, exec, halt, the ELF loader, the end of a thread by an exception,
-- thread creation and condition variables of the user-level thread library, and the base library in
-- 410kern. Interrupts between the steps of a function are not modelled: each function runs to its end.
mod Base
pub mod LinkedList
pub mod Paging
pub mod Memory
pub mod Kernel
pub mod Sched
pub mod Keyboard
pub mod Frames
pub mod Console
pub mod Thread
pub mod Input
pub mod Process
pub mod User
mod Examples
pub mod Install
pub mod Vanish
pub mod Spawn
pub mod Files
pub mod Fork
pub mod Create
pub mod Swexn
