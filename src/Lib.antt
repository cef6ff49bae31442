-- ===== src/Lib.antt =====
-- Parts of the Cobalt ROM: its file system, cobalt_romfs/crfs_func.c with cobalt_romfs/crfs.h and
-- crfs_func.h, the address regions of x86/common/region.c, the CMOS memory with the boot devices,
-- and the text services of the monitor: strings, string buffers, formatted output, the history and the
-- menus.
--
-- The file system lies in a flash ROM of 4096-byte blocks. All that it keeps in memory is global
-- state of crfs_func.c, the record `Fs` of Crfs/State.antt:
--   the cache of blocks, in the order of its list;
--   the backing store, the content of each block behind read_block and write_block of
--   cobalt_romfs/crfs_block_stdio.c or x86/common/eeprom.c;
--   the super block and crfs_which_super, where `none` is -1;
--   the maps of blocks and of inodes, and the inode of the current directory.
--
-- Files, with the functions that they model:
--   Crfs/Freemap: freemap_init, freemap_next, freemap_flush, freemap_mark, freemap_unmark,
--   freemap_isset. A map is two lists of bytes; Freemap/Bit reads it as two sets of bit numbers.
--   Crfs/Layout: the structures of crfs.h, over blocks that are functions from offsets to bytes.
--   Crfs/Cache: crfs_read_block, crfs_write_block, cache_add, block_is_dirty, crfs_checksum,
--   cache_flush. Cache/View gives the specification: a store of blocks that has no cache.
--   Crfs/Monad: calls that change the state and may fail; a failing call keeps its changes.
--   Crfs/Inode: crfs_lookup_inode, crfs_write_inode.
--   Crfs/Dir: crfs_lookup_dirent, crfs_namei, inode_lookup_from_namei, is_dir.
--   Crfs/Create: crfs_create, crfs_mkdir.
--   Crfs/File and Crfs/Io: crfs_open, crfs_close, crfs_seek, next_fblock, append_fblock, crfs_read,
--   crfs_write.
--   Crfs/Free: mark_inode, unmark_inode, rm_file, crfs_remove, crfs_rmdir.
--   Crfs/Listing: crfs_opendir, crfs_readdir, crfs_closedir, crfs_stat.
--   Crfs/Mount: crfs_init. Crfs/Format: crfs_mkfs.
--   Crfs/Phased: the phased commit that the head of crfs_func.c describes, as an invariant.
--   Crfs/Example, Crfs/Tests and Crfs/Runs: a small file system and the theorems at it.
--   Region: x86/common/region.c; the list of regions is its global region_list.
--   Cmos: x86/common/cmos_io.c; Cmos/Serial, Cmos/Address and Cmos/Setup: x86/common/cmos.c, with
--   the command of x86/monitor/cmos.c in Cmos/Setup/Table. The bytes are a function; the variables
--   of cmos.c are the record `Rom`.
--   BootDevs: x86/common/bootdevs.c.
--   Text: x86/common/string.c and x86/common/ctype.c. Text/Memory: x86/common/memfuncs.c and the
--   copies of strings, on a memory that is a function. Strbuf: x86/common/strbuf.c; a buffer has its
--   memory and the room of it, and an access past its end is `none`.
--   Printf: sprintf_num and sprintf_ll_num of x86/common/printf.c. Printf/Scan: sprintf_core, with
--   printf, sprintf, snprintf, puts and print_bytes; `none` is an argument that is missing or of
--   another type, a format that ends within a conversion, or a store outside a buffer.
--   Menu: the console of x86/common/menu.c; Menu/Split: split_buffer, on the line as memory;
--   Menu/Panel: menu_handle_lcd, over the buttons that are read. A pointer to a menu item is a
--   number, and the table of the items and the functions of the commands are parameters.
--   Readline: the history and the function readline of x86/common/readline.c. Readline/Raw: raw_putc,
--   raw_cursor, raw_backspace and raw_arrow, with the row of the terminal as raw_putc counts it: a
--   back space moves back, and any other character but a new line takes one place. The string
--   buffer of the line is the list of its characters. Readline/Raw/Read: raw_read over the list of
--   the keys that come; `none` is an access outside prevs, or keys that end before the line does.
--   Rtc: x86/common/rtc.c and the commands of x86/monitor/rtc.c. The ports are a parameter; theorems
--   on the clock suppose that a register which the address port selects is read and stored at the
--   data port, and that no register changes in between.
--   Prelude: numbers, lists, options and bits.
--
-- How the parts interact: the inode, directory and file functions reach blocks through the cache
-- alone and take new ones from the maps; cache_flush alone writes to the backing store, the dirty
-- blocks first and then the super block in the place that is not in force. The regions are apart from
-- all this. sprintf_num writes into a string buffer; readline takes the numbers of lines by stoli and
-- lines from the history; cmos_init sets up the bytes that the flags, the serial number and the boot
-- devices are read from.
--
-- Conventions. Numbers are natural numbers; 16 and 32 bit fields wrap where the code stores them.
-- Names and paths are lists of characters without the NUL. Allocations succeed: malloc of
-- x86/common/malloc is another author's library. An access past the end of a map, which C leaves
-- undefined, reads 0 and writes nothing. The padding of an inode keeps its bytes. A crash is a
-- prefix of the writes of one flush, each of a whole block. When crfs_init starts, crfs_which_super
-- is -1.
--
-- Fuel: roundup2 runs 32 rounds, the bits of its argument. The loops of crfs_read and crfs_write
-- run on one more round than bytes are left, and each round takes a whole block's share or gives up.
-- mark_inode and unmark_inode run on 2 ^ 16 levels and blocks of a chain, the number of 16-bit inode
-- and block numbers, and return `none` when the fuel is spent; on a directory or a chain that comes
-- back to itself the code does not return. The searches of the history run on the 128 entries of the
-- ring, the loop of readline on three rounds for each character, and the digits of a number on the
-- places of nbuf; `none` is a search, a loop or a buffer that runs out. The loops to the NUL of a string
-- in memory run on any number above its length. The other loops count down the rounds that the code's
-- bounds give.
--
-- The hardware is a parameter where the code asks for it: the type of the system, the version of the
-- build, and do_first_boot of the program that the CMOS code is linked into. A malloc that gives the
-- memory of a string buffer succeeds.
--
-- Not modelled: the backing stores, the command line tools, the text of the menus' help, the
-- cleanup of raw_read, and the rest of the ROM under x86/: its
-- drivers, the monitor, the assembly, and the copies of malloc, the decompressors and MD5.
pub mod Prelude
pub mod BootDevs
pub mod Cmos
pub mod Crfs
pub mod Menu
pub mod Printf
pub mod Readline
pub mod Region
pub mod Rtc
pub mod Strbuf
pub mod Text
