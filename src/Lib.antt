-- ===== src/Lib.antt =====
-- HeineOS: the kernel of an operating system for teaching (kernel/src), in a shallow embedding.
--
-- The kernel is one program without address spaces of its own: `boot.rs` sets up the heap, the
-- interrupt controllers and the drivers and starts the scheduler; threads call each other's services
-- through plain functions, and interrupts enter through `interrupt/dispatcher.rs`. A method that
-- takes `&mut self` becomes a function that returns the new state; a call that can panic or wait for
-- ever returns an `Outcome`: `done x`, `panics` or `spins`. A machine integer is a number with its
-- wrap-around written out.
--
--   Prelude             the shared names: numbers, lists, options, Boolean tests, `Outcome`, and
--                       the bits of a number. Its children hold the lemmas.
--   Queue               kernel/src/library/queue.rs. A chain of `Option<Box<Node<T>>>` is the data
--                       type `Link`; `enqueue`, `dequeue`, `remove` and the printing. Queue/Fifo
--                       and Queue/Remove hold the specification and the refinement.
--   Scheduler           kernel/src/thread/scheduler.rs, over Queue. The state stands behind its
--                       spinlock; a call returns how control goes on (`Control`) and the scheduler
--                       it leaves. Scheduler/Calls puts the calls into one step; Rotation is about
--                       the round robin, Ownership about who holds a thread, Liveness about the
--                       calls that come to an end. Threads are their ids; the switch of the stacks is
--                       in Thread.
--   Allocator           kernel/src/allocator/global.rs and list.rs. A free block is a node at its
--                       own address, and the free list is the chain of those nodes. The steps of
--                       `alloc` and `dealloc` are those of the source, with the sums of `usize` and
--                       the panics. Allocator/FreeList says what a well-formed list is, Insert and
--                       Find are about the two loops, Alloc about the calls, and Live about any
--                       sequence of calls. The contents of memory are not modelled.
--   Ports               kernel/src/device/cpu.rs: reads and writes of I/O ports. What the devices
--                       answer is a parameter; every access is kept. Ports/Polling has the loops that
--                       wait for a status.
--   Key                 kernel/src/device/key.rs: scancodes, modifiers and key events. Key/Waiting,
--                       with kernel/src/library/input.rs, has the queue of the keyboard over an
--                       interface for the bounded queue; Key/Polling is about waiting for a key.
--   Keyboard            kernel/src/device/keyboard.rs, over Ports and Key: the decoder of bytes, its
--                       tables, and the commands to the controller. Keyboard/Kinds is the abstract
--                       keyboard; Typing is about a whole session, Lights about what the keyboard shows.
--   Rtl8139             kernel/src/device/rtl8139.rs: the packet queues of the network card.
--                       Rtl8139/Registers has its ports, Transfer the ring and the descriptors, Ring the
--                       places that it goes through, and
--                       Plugin, over Pci, Pic and Interrupts, how it is found.
--   Tarfs               kernel/src/filesystem/tarfs.rs: open files over the entries of an archive,
--                       which are parameters.
--   Pic                 kernel/src/device/pic.rs, over Ports: the masks of the interrupt lines;
--                       Pic/Controller is the chip as its data sheet has it.
--   Interrupts          kernel/src/interrupt/dispatcher.rs: the map from vectors to handlers, which
--                       are a parameter.
--   Sync                kernel/src/library/spinlock.rs and once.rs: the lock and the value that is
--                       initialised once. Sync/Spin and Sync/Single are step relations for the
--                       threads that use them.
--   Pci                 kernel/src/device/pci.rs, over Ports. Pci/Codes has the enumerations, Pci the
--                       reads and writes, Pci/Scan the search for devices. Pci/Values and Registers
--                       are about single registers, Listing and Search about the search.
--   Machine             the instructions of kernel/src/thread/thread.rs and coroutine.rs, and
--                       `tss_set_rsp0` of kernel/src/boot.asm, on registers and words of memory.
--   Thread              kernel/src/thread/thread.rs, over Machine: the assembly, the stacks and how a
--                       thread starts, is switched, and gets to user mode.
--   Coroutine           kernel/src/coroutine/coroutine.rs, over Machine.
--   Framebuffer         kernel/src/device/framebuffer.rs: drawing as writes to bytes of memory; the
--                       8x8 font of kernel/src/device/font_8x8.rs is a parameter. Pictures are in
--                       Framebuffer/Pictures.
--   Terminal            kernel/src/device/terminal.rs, over Framebuffer: the cursor and the printing
--                       of text.
--   Serial              kernel/src/device/serial.rs, over Ports: output on a serial port.
--   Bump                kernel/src/allocator/bump.rs, over the rounding of Allocator.
--   Idt                 kernel/src/interrupt/idt.rs: the gates, and in Idt/Table the table of them.
--   Multiboot           kernel/src/multiboot.rs: the boot information as bytes of memory; the search
--                       for a tag in Multiboot/Search, and the texts of tags in Multiboot/Text.
--   Timer               kernel/src/device/pit.rs, over Ports, Framebuffer and Scheduler: the timer,
--                       its handler and the waiting for a time. Timer/Preemption is about the threads
--                       that the ticks bring to run, Timer/Programming about the registers.
--   Paging              kernel/src/paging/pages.rs, over the memory of Machine: the recursion over the
--                       page tables. Paging/Words is about single entries, Walk about the tables.
--   Syscall             kernel/src/syscall/dispatcher.rs and user_api.rs, over Machine: the dispatcher;
--                       Syscall/Functions has the functions that it calls.
--   Bmp                 kernel/src/library/bitmap.rs: pictures from the bytes of a file, and in
--                       Bmp/Files from a file of Tarfs.
--   Boot                kernel/src/boot.rs, over Multiboot, and in Boot/Drivers over Interrupts, Pic,
--                       Timer and Rtl8139: what `main` takes from the boot information, and the start
--                       of the drivers.
--   GameBoy             kernel/src/demo/lesson6/peanut_gb.rs: what the keys do to the joypad of the
--                       emulator, which is third-party code; and the error codes of its start. GameBoy/Keys
--                       has the keys as the emulator's printed help names them.
--
-- Bounds and fuel. The search of Pci takes the number of nested buses; 256 are enough where the bus
-- behind a bridge has a larger number than the bridge's, a hypothesis on the numbering. The receive
-- loop of Rtl8139 takes a number of packets, enough if it is more than those that the card has left,
-- a hypothesis on the card. The polling loops of Keyboard, Rtl8139 and Serial take the parameter
-- `patience`: it is enough when it is more than the reads that the device takes to become ready, a
-- hypothesis on the device. The search of Multiboot takes a number of rounds, enough if it is more
-- than there are tags; the polls of Key one that is enough if there are not more keys pending; and
-- `wait` of Timer one that is more than the readings of the time until it is over. Every other loop
-- walks a list or counts, and is structural recursion.
--
-- Not modelled: the assembly of kernel/src/boot.asm but for one routine, the calls of the firmware in
-- kernel/src/boot.rs, the speaker, the logger, the idle thread, the other demos, the loader, and
-- third-party crates. Compiled functions that assembly calls are parameters.
pub mod Prelude
pub mod Queue
pub mod Scheduler
pub mod Allocator
pub mod Ports
pub mod Key
pub mod Keyboard
pub mod Rtl8139
pub mod Tarfs
pub mod Pic
pub mod Interrupts
pub mod Sync
pub mod Pci
pub mod Machine
pub mod Thread
pub mod Coroutine
pub mod Framebuffer
pub mod Terminal
pub mod Idt
pub mod Serial
pub mod Bump
pub mod Multiboot
pub mod Timer
pub mod Paging
pub mod Syscall
pub mod Bmp
pub mod Boot
pub mod GameBoy
