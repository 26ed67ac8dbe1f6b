-- ===== src/Lib.antt =====
-- sockmon: a monitor of TCP and UDP connections. Its files are modelled where they decide
-- something; calls of curses, of netlink and of the file system are left out or are arguments.
--
-- The parts, and the files of this library that model them:
-- * Field (src/draw.h, src/draw.c): `struct field`, `struct filter` and the bit masks of attributes
--   (`ext_set`, `ext_is_set`). Field/Table has the whole array `tcp_fields`; the offsets of the
--   members of the kernel's structures are the parameter `Abi`. A function pointer of an entry is a
--   constructor that names the function, `none` for NULL.
-- * Conn (src/conn_info.h): a connection as its bytes, read at offsets, on a little-endian machine.
-- * Sort (src/draw.c): `sort_common`, `sort_address` and the other comparison functions. Sort/Order
--   has the lexicographic order that they implement, Sort/Laws the proof.
-- * ConnList (src/draw.c): `add_conn_info`, which the netlink dump calls for each connection and
--   which reads the sort key that the field screen sets, on a list of connections.
-- * ListHead (src/list.h, src/conn_info.c): the ring of `struct list_head` as a heap. ListHead/Entries has
--   `add_conn_info` on the ring, which ConnList models on lists, and the loop of `list_for_each_entry_safe`
--   that frees the entries, in src/main.c and in `draw_connections`.
-- * Ctx (src/main.h, src/main.c): `struct nm_ctx`, which all parts share, and `nm_ctx_init`. A pointer
--   into `tcp_fields` is an index. Ctx/Valid has the invariant that the keys keep.
-- * MainScreen, FieldScreen, Input (src/input.c): the key handlers of the screens and `should_stop`,
--   which reads a key and calls the handler that the screen's table has for it; FieldScreen also has
--   the order of the rows that `draw_field_header` of src/draw.c shows.
-- * Rows (src/draw.c): the columns that `draw_connections` writes in the heading and `draw_protocol`
--   in the row of a connection, the choice of the rows, and the list that is left.
-- * Print, Cell (src/draw.c): `nm_mvwprintw` and the texts of the `dr_*` functions that `draw_row` names.
--   `inet_ntop` is a parameter. Choice/Listed has the names that the prompts list with `draw_str`.
-- * Page (src/draw.c): `draw_summary`, `draw_help`, and the page of `draw_field_header` with `draw_header`.
-- * Accept (src/draw.c): the `fa_*` functions that `filter_apply` names, on the bytes of a connection.
-- * Prompt, Choice, Address (src/draw.c): the prompts `fp_common`, `fp_str_common` and `fp_addr` over the
--   keys typed at them, and the text of `decode_filter`; Prefix has the mask of a prefix length.
--   `inet_pton` and `inet_ntop` are parameters.
-- * Nl (src/nl.c): `build_request`, `diag_dump` and `connections_dump` over the messages that the
--   kernel's macros take apart; Nl/Copy has the `copy_*` functions. `Sizes` are the sizes and places
--   of the structures that they copy.
-- * Main (src/main.c): `main`, its loop and `nm_ctx_exit`, with what the kernel, /proc and the user do
--   in each turn as an argument. A turn calls Proc/Scan, Nl and Rows, and the keys go to Input.
-- * Proc (src/proc.c): the hash table from socket inodes to processes, `lookup_socket_owner`,
--   `add_sk_ino` and `free_sk_proc_map`; Proc/Scan has the walk of `build_sk_proc_map` through /proc,
--   Proc/Path `get_proc_mount_path`, `proc_init` and the paths in the buffer `proc_path`.
-- * Text (the C library): the functions of the C library on text that these parts call.
-- * Base (helpers): the shared names, lists over the native numbers, bits of a word, and `Run`, the result of
--   code that can meet undefined behaviour (`fault`) or wait for a key (`waits`).
--
-- Integers: `int` members that can fall below 0 are integers without a bound; unsigned words wrap
-- where the code can reach the bound. `sort_string` reads the 16 bytes that both string members
-- have, and its fuel is that number. The loop that picks the size of the hash table runs at most
-- 31 times, since the shift of a 32-bit word ends there; the theorems on it bound the number of
-- sockets by 2 ^ 31. The loops over a ring of connections run on fuel, of which one unit more than
-- the ring has entries is enough.
--
-- Not modelled: the windows, boxes and messages of curses, the netlink socket and the macros of
-- the kernel that walk through a message. The field screen takes the call through `filter_parse`
-- as a parameter that can fault; FieldScreen/Prompts has the function that stands for it. A filter
-- has the members of its union side by side, of which one is in use. `unsigned long long` wraps in
-- `fp_common`, and `decimal` has fuel for the 20 digits of such a number.
pub mod Base
pub mod Text
pub mod Field
pub mod Conn
pub mod Sort
pub mod ConnList
pub mod ListHead
pub mod Ctx
pub mod MainScreen
pub mod FieldScreen
pub mod Prefix
pub mod Accept
pub mod Address
pub mod Main
pub mod Nl
pub mod Choice
pub mod Prompt
pub mod Print
pub mod Cell
pub mod Page
pub mod Rows
pub mod Input
pub mod Proc
pub mod Tests
