-- ===== src/Lib.antt =====
-- A model of sonic-common-utils, the C utilities that the SONiC components share, and its proofs.
--
-- The parts stand by themselves, but that the change list of the radix tree (Radical) is kept in a
-- list of Dll.
--   * Base: numbers, Boolean tests, lists, arrays as functions, blocks of memory (Memory), checks of
--     every number below a bound (Every), and the laws of bit operations.
--   * MergeSort (src/std_mergesort.c): `merge_arrays`, `divide_n_sort` and `std_merge_sort` on
--     `array` and `tmp_array`. Merging is the merge of two lists, Ranges says what one merge writes,
--     and Sorting is about the whole sort.
--   * Crc (src/std_crc32.c): `std_crc32` over its table. Bitwise is the shift register that defines
--     CRC-32, Reference compares the two, and Detection shifts the register back.
--   * BitMask (src/std_bit_masks.c, sonic/std_bit_masks.h): bit arrays and the searches for a set
--     bit. Bytes is about one byte, Search about the first set bit, SearchBack about the last,
--     Macros about single bits.
--   * Dll (src/std_llist.c, sonic/std_llist.h): the doubly linked list between two sentinels. Linked
--     says which list the links stand for, Splice and Edit are about insertion and removal, Walk about
--     the loop from node to node, and Sorted about `std_dll_insert`.
--   * IntMapping (src/std_int_mapping_util.c): `std_int_translate`, about which is Lookup.
--   * Ip (src/std_ip_utils.c, sonic/std_ip_utils.h): masks and prefix lengths of addresses, about
--     which is Masks, and the tests and comparisons of addresses, about which is Compare.
--   * Radical (src/std_radical.c, sonic/std_radical.h): the change list of the radix tree, a client of
--     Dll, which it uses by the theorems of Edit and Walk alone. Rounds is about one round of the walk,
--     Walk about `std_radical_walkchangelist`, Versions about `std_radical_appendtochangelist`, Wrap
--     about `std_radical_procverwrap`, and Skip about the searches that pass over markers.
--   * Radix (src/std_radix.c, sonic/std_radix.h): the radix tree of keys of bits, with its nodes and
--     entries as a pointer store. Lookup has the searches by address, Following the entry behind an
--     address and the subtree of one, Insertion and Removal the changes, and Walking the two walks,
--     of which Rounds, Passing and Visiting are about `std_radix_walk`.
--     Shape says which tree the pointers stand for and how its keys are ordered, Prefix is about
--     `rdx_compare_address`, Candidate about the nodes that match an address, Steps, Chain and Chained
--     about the search down and all matches on the way back up, and Best, Exact and Second about
--     `std_radix_getbest`, `std_radix_getexact` and the two lookups of the second match.
--     With a leading underscore in the source: `std_radix_getsubtree`, and `_std_radix_remove`,
--     which is `remove_node`.
--   * Rbtree (src/std_rbtree.c, sonic/std_rbtree.h): the table and its nodes as a pointer store, the
--     rotations, the exact search, and the two ways through the tree. Shape says which tree the
--     pointers stand for, Order is about the successor of a node, Visit about the loop by
--     `_std_rbtree_getnext` and the recursive walk, Search about `_std_rbtree_getexact`, Answers
--     and Nearest about `_std_rbtree_getexactornext`; Previous has `_std_rbtree_getexactorprev`, and
--     Walking `std_rbtree_walk`. Insertion has `_std_rbtree_insert` and what it calls: Descent is
--     about the way down, Hanging about the new node, Round, Uncle and Loop about one round of the
--     balancing, Rules and Painted about the colours in it, Ending about all of them, Inserted about the whole, and Repeated about insertions one
--     after the other. Rotation says what a rotation writes, Zipper what a place in the tree is, Apart, Turn, Place and Sides what happens at a place
--     for the left and the right side alike, and Whole goes back to the whole tree. Colours are the rules of the colours, and Heights how deep a
--     tree is that keeps them. Removal has
--     `_std_rbtree_remove` and what it calls; Runs has tests of all these. With a leading underscore in
--     the source: `node_getfirst`, `node_getnext`, `node_getexact`, `node_getexactornext`,
--     `node_getexactorprev`, `node_insert`, `node_remove`, `node_walk`.
--   * Tlv (sonic/std_tlv.h, sonic/std_tlv_internal.h): tag-length-value records in a byte buffer.
--     Bytes is about the little-endian fields, Add about `std_tlv_add`, Chain about records one behind
--     the other, Find about `std_tlv_find_next`, Nested about `std_tlv_efind`.
--
-- How the code is read: a pointer is an address, 0 is null, memory that the caller owns is a function
-- from addresses or indices, and a write changes the function at one place. Callbacks of the caller
-- (`cmp_func`, `compare`) are parameters, with what is asked of them named where it is used. Numbers
-- are natural; where the source wraps, the model has the remainder by the power of two.
--
-- Fuel: the three loops of the merge get the number of elements of the range, the recursion of the
-- sort gets the number of elements, and the first search of a bit gets the number of bytes; the
-- theorems about their results show that this is enough. `std_dll_insert` and the walk take any fuel
-- above the number of nodes, and `std_tlv_find_next` one unit for every 16 bytes of the buffer and one
-- more. Searches of the red-black tree and insertion into it take any fuel above the number of nodes,
-- and the loops over a change list any above the number of its nodes. Lookups in the radix tree
-- take any fuel above the number of nodes on the longest way down. Removal from either tree, insertion
-- into the radix tree, the search for the node before a key and the walk of the red-black tree by a
-- loop are run on fuel in tests; the walk of the radix tree takes four rounds at every node.
--
-- Not modelled: the debug checks of the red-black tree, the asserts of the radix tree and the fields
-- that its entries have for the change list, strings and prefixes of addresses, memory exhaustion but
-- for the results of `malloc` in the bit arrays, of `rbtt_malloc` and of `rtt_malloc`, the overflow of `int` indices in the sort, and the parts that are calls of the system, of pthread or
-- of libxml2: files, sockets, threads, locks, shared libraries, and the configuration tree.
pub mod Base
pub mod BitMask
pub mod Crc
pub mod Dll
pub mod IntMapping
pub mod Ip
pub mod MergeSort
pub mod Radical
pub mod Radix
pub mod Rbtree
pub mod Tlv
