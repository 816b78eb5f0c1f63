-- ===== src/Lib.antt =====
-- Steelmind OS: models of the kernel's components, and what is proved of them.
--
-- The program is a small x86-64 kernel (kernel/src) with the tool that builds its boot image
-- (bootimage/src/main.rs) and two user applications (user_app/src). The boot loader starts main.rs, which
-- checks the RAM disk, sets up the screen, the physical memory, the heap, the APIC and the other cores;
-- each core then runs common_main.rs in its own window of the screen, and loads and runs an application. Built
-- for testing, the kernel runs its tests and tells the emulator, and so the tool, how they ended.
--
-- Parts and files:
--   Base: the shared library. Base/Panics is code that may panic: an index out of range, an `unwrap` of
--     `None` and a failed `ass!` (kernel/src/macros.rs) do, and an overflow does in the profiles `dev` and
--     `opt-dev`; in `release-lto` it wraps, and the models hold where they do not panic. Base/Ports is code
--     that reads and writes device registers: what the devices answer is a script, what the code did is a
--     log. Base/Words is words in a memory of bytes, Base/Loops is `for` over code that may panic,
--     Base/Family a family of cores.
--   RamDisk: bootimage/src/main.rs (Image, create_ram_disk) in RamDisk/Image, kernel/src/ram_disk.rs in
--     RamDisk/Reader; RamDisk/Layout and RamDisk/RoundTrip relate what the tool writes to what the kernel reads.
--   Constants: kernel/src/constants.rs.
--   Memory: kernel/src/memory.rs. Memory/Frames is the free list of frames, whose nodes lie in the free
--     frames themselves (allocate_frame, deallocate_frame); Memory/Frames/Init builds it from the boot
--     loader's memory map; Memory/Mapping is map_ram_kernel, map_ram_user, unmap_ram; Memory/Tables is
--     the level 4 tables of address spaces (create_new_l4_page_table, switch_l4_page_table), Memory/FrameBuffer is
--     set_frame_buffer_cache_to_write_combining.
--   Allocator: kernel/src/allocator.rs, how the kernel's heap and a user heap grow; Allocator/Backing has
--     the same with the calls of map_ram_kernel and map_ram_user.
--   Loader: kernel/src/loader.rs. Loader itself has the flags of segments and allocate_stack, Loader/Segments
--     map_segment and load with the bytes of an address space. Loader/Switch is run, the switch of stacks and
--     abort: the assembly is run by the small processor of Loader/Cpu, and an application is any function from
--     the state at its entry to the one in which it returns or aborts. Loader/Application is prepare_application, run
--     and the drop of the resources over all address spaces of a core, with the functions that an application calls in
--     Loader/Application/Calls; Loader/Application/Stack is what allocate_stack does to the pages, and
--     Loader/Application/Test is app_test of kernel/src/common_main.rs with the application of user_app/src/test.rs,
--     where the processor that runs the loaded code is any function that does what the model of that application does.
--   Terminal: kernel/src/terminal_out.rs (Color, WindowInfo, TerminalWriter) and get_window_info_for_core of
--     kernel/src/common_main.rs. Terminal/Pixels is print_pixels, Terminal/Buffer the double buffer with
--     push_to_frame_buffer and panic_print, Terminal/Stdout the guarded terminal.
--   Logging: kernel/src/logging.rs.
--   Serial: kernel/src/serial.rs.
--   Pit, Apic: kernel/src/pit.rs and kernel/src/apic.rs.
--   Interrupts: kernel/src/interrupts.rs. Interrupts/Controllers also has a model of the two controllers that
--     the code programs, Interrupts/Vectors compares the vectors with those of kernel/src/apic.rs.
--   Smp: allocate_stacks and the stack layout of kernel/src/smp.rs, and the stack pointer that
--     kernel/smp_trampoline/ap.asm computes. Smp/Local is the core local data. Smp/Startup is init_smp, the end of
--     the trampoline and ap_entry_fn as a step relation: each step is one access of shared memory by any of the
--     cores, so that a run is any interleaving of them (BootMove for the first core, ApMove for another,
--     Reach for what can be reached).
--   KernelMain: assert_boot_info of kernel/src/main.rs and Acpi::new of kernel/src/acpi.rs.
--   CommonMain: of kernel/src/common_main.rs the colour of a core, timer_test, and the loop of core 0 with the timer's
--     interrupts between any two of its steps.
--   Tester: kernel/src/tester.rs, a test being how its block ends.
--   UserApp: user_app/src/os_functions.rs; UserApp/Program is main of the two applications, UserApp/Primes the iterator
--     of test.rs. What an application does is a state with the texts it has handed to the kernel, and an ending: it
--     returns, aborts, or waits for its own mutex for ever.
--   Bootimage: main of bootimage/src/main.rs, as commands that are started and changes of files, in Bootimage/Steps;
--     Bootimage/Outcome composes it with Tester.
-- Each file's first comment names its code; definitions keep the names of the source, and a method takes its
-- object as the last argument.
--
-- Code that is not in the repository is a parameter: the checksum of the crate pruefung (Hasher), the
-- alignment of addresses of x86_64 and which numbers are addresses (Base/Address), the accessors of the
-- macro bitfield! (Base/Bitfield), the font of noto_sans_mono_bitmap (Font), the counters of
-- buddy_system_allocator (Buddy), the page table (a function from pages to frames, map_to and unmap, or
-- Mapper with its laws), the ELF parser (its result), the file system of the build machine and what the
-- commands end with that run on it (Host), what the emulator makes of a byte for its debug port, the
-- allocator and the check of UTF-8 behind the functions for applications (Libraries), the texts that the
-- crate core formats (Strings, Texts). Base/Address and Base/Bitfield have a concrete instance beside them,
-- the examples have the others.
--
-- Bounds and fuel: numbers are natural numbers; sums and products of u64 and usize panic from 2^64 on, and a
-- comment says where a bound makes that impossible. A loop that polls a device takes fuel, one for each poll or
-- each byte, and a theorem about it says how much is enough; without an answer in the script, such a program
-- waits, which is `none`. print_pixels takes fuel for its rows, and the colours are a bound for them. All other loops
-- are structural. The loop of init_smp on its time-out is steps of the relation.
--
-- Not modelled: the parsing of the ACPI tables, of ELF files and of arguments (crates), what loading a table of
-- descriptors does, the barrier of the cores (a crate), the order of initialisation in kernel_main, the table of
-- function pointers as it lies in memory, freeing the frames of an application (the source has not written it),
-- the functions that only print (print_logo, log_page_table_info, the demonstrations) and the single tests. But for
-- the lock that panic_print tries, the mutex of an application's buffer and the startup of the cores, the locks are
-- left out: each model is of one core inside the lock.
mod Base
pub mod RamDisk
pub mod Constants
pub mod Memory
pub mod Allocator
pub mod Loader
pub mod Terminal
pub mod Logging
pub mod Serial
pub mod Pit
pub mod Apic
pub mod Interrupts
pub mod Smp
pub mod UserApp
pub mod Tester
pub mod Bootimage
pub mod KernelMain
pub mod CommonMain
