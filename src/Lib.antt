-- ===== src/Lib.antt =====
-- Verification of the Shield TV loader, a fastboot boot loader in C.
--
-- main.c reads the command line and the device tree, fills the memory tables of lmb.c and enters the
-- fastboot loop of fb.c, which talks through the USB driver usbd.c. The development models lmb.c,
-- the command line and the tables of main.c, the USB driver and the fastboot commands, the strings
-- and numbers that they rest on, the format strings of vsprintf.c, and the video console of
-- cfb_console.c.
--
-- Base holds the names and lemmas that all share: tests on numbers, 64-bit arithmetic with its
-- wrap-around (Base/Words), the laws of `&` with a mask (Base/Bits), and lists (Base/Lists).
--
-- Lmb.antt models one table of lmb.c and lmb.h: struct lmb_region, lmb_remove_region,
-- lmb_coalesce_regions and lmb_add_region, in the parts of the source: the scan for overlap and
-- growth (coalesce_scan), the merge with the next region (merge_next), the insertion
-- (insert_region). A table's array is a function from the index, so the entries past `cnt` keep what
-- they held, as in C. Lmb/Ops.antt models the operations on both tables: lmb_add, lmb_add_mmio,
-- lmb_free, lmb_reserve, lmb_is_known, lmb_is_reserved, lmb_overlaps_region, lmb_alloc and
-- lmb_alloc_base. The modules below these two prove: Lmb/Sorted has the invariant, Lmb/Entries and
-- Lmb/Remove the array loops, Lmb/Add/* the parts of lmb_add_region, Lmb/Ops/* the other operations,
-- and the Tests modules run them.
--
-- Ctype.antt is the table of ctype.c and the tests of ctype.h, Ctype/Ranges what they say of each
-- byte. Text.antt models the routines of string.c that read strings, each by its own name: a string
-- is the list of its bytes before the NUL, a pointer into it the list from there on, NULL is none.
-- Memory.antt models those that write and those that search an area of memory: memory is a function
-- from the address. Areas do not wrap around the address space. `char` is unsigned, as on AArch64.
--
-- Number.antt models the parsers of vsprintf.c (simple_strtoull and its callers), which return the
-- number and the rest of the string, and put_dec with its two helpers, whose digits are a list, the
-- last digit first, as the source writes them; Number/Format has number, which prints them, and what
-- vscnprintf keeps of a text. Boot.antt models main.c: memparse, parse_memloc, parse_range,
-- parse_and_reserve_range and the steps of main up to fb_launch over the tables of Lmb;
-- Boot/Cmdline models dump_cmdline, as its calls of printk. The answers of libfdt are the record
-- Fdt; image_start and image_end are arguments.
--
-- Usbd.antt models usbd.c: struct usbd with the requests of the program, the array usbd_reqs, and
-- the functions that submit, complete and cancel a request; Usbd/Setup has the control requests,
-- Usbd/Poll usbd_init, usbd_port_reset, usbd_completions and usbd_poll. What a register holds is an
-- argument where it is read; what is written to it is kept in a list. The driver calls the fastboot
-- code through `complete` and set_config, which are arguments of its functions; a run ends in a
-- value or in one of the ways of Base/Results (BUG_ON, a null pointer, a reboot, a jump to a loaded
-- image).
--
-- Fb.antt models fb.c on top of it: struct fb_mem, the reports and the transfers of a download;
-- Fb/Oem and Fb/Service the commands behind "oem ", Fb/Command the others and fb_rx_cmd_complete,
-- Fb/Dispatch the call through `complete`, fb_set_config and the loop of fb_launch. The modules
-- Fb/Answer to Fb/Answered prove that a command is answered, Fb/Round that a round of the loop does,
-- Fb/Download and Fb/Race what a transfer of a download does, and Fb/Protocol has the abstract
-- download, a counter. The memory that peek and poke reach is a function from the address, apart
-- from the structures of the program. The state of peek and the type of a reboot, which share a
-- union in C, are fields of their own, and peek stores its state once the command is accepted.
-- smc_call is an argument.
--
-- Video.antt models cfb_console.c with the settings of video_fb.h: the drawing of characters,
-- scrolling, the cursor, video_putc, video_puts and video_init, over memory as a function from the
-- address. The font is an argument. Video/Draw proves what a character draws, Video/Scroll what
-- scrolling does, Video/Cursor that printing stays on the console.
--
-- Printf.antt models format_decode of vsprintf.c, Printf/Convert the conversions of vsnprintf, and
-- Printf/Buffer vsnprintf itself and the functions that call it. A format is the list of its bytes,
-- the arguments are 64-bit words, and what stands at an address is given by two functions. Widths
-- and precisions are words of 16 bits, as int16_t, and wrap around as the code counts them. %n
-- stores into memory, and the theorems on the text leave it out. Printf/Later, Printf/Reads and Printf/Rounds prove that the loop ends, Printf/Bounds what it
-- leaves in the buffer, Printf/Texts and Printf/Kept that the replies of Fb are what vsnprintf makes
-- of their formats, and Printf/Prints what the formats of echo and dump_cmdline show.
-- Printf/Console models printk of lib.c, which joins vsnprintf with the video console.
--
-- Fuel: the search of __lmb_alloc_base takes, in each memory region, the first candidate address and
-- one more, which suffices because each next candidate is lower; put_dec takes four rounds, since 2
-- ^ 64 is below 100000 ^ 4; dump_cmdline takes the bytes of the line and one more; the digits of
-- number in base 8 and 16 take 22 rounds, the octal digits of 64 bits; the loop of poke takes the
-- bytes of the command, of which each round takes one; calls through `complete` are at most two
-- deep, since only the completion of a command cancels others; the loop of vsnprintf takes two
-- rounds for each byte of the format and one more, since a round reads a byte or ends a width or a
-- precision that was an argument. All other loops recur on the rounds or the bytes that are left.
--
-- Not modelled: %pV (a format within a format, at which the model of vsnprintf ends), vsscanf and sscanf, the loops of usbd.c that wait
-- for a register, the allocation of the DMA memory in fb_launch, the copy of libfdt (fdt*.c), the
-- parts of cfb_console.c that the settings leave out, and the start-up code.
pub mod Base
pub mod Boot
pub mod Ctype
pub mod Fb
pub mod Lmb
pub mod Memory
pub mod Number
pub mod Printf
pub mod Text
pub mod Usbd
pub mod Video
