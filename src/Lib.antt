-- ===== src/Lib.antt =====
-- renameutils: the programs qmv and qcp, which rename and copy the files of a directory by way of a
-- text that the user edits, and what they are built from.
--
-- The programs list files, write their names to an edit file in one of three formats, read the edited
-- names back, make a plan of the renames that is free of collisions, and apply it with `mv` or `cp`.
--
-- What models what:
-- - Quote, src/quote.c: `quote_output_file` and `dequote_output_file`, for names in the edit file.
-- - Edit, src/editformats/single-column.c, destination-only.c and dual-column.c, and `read_line`
--   of src/common/io-utils.c: what the formats write and read. They use Quote, and write
--   `new_name` of the file specs.
-- - Plan, src/plan.c and the structures of src/qcmd.h: the scans of `make_plan` and
--   `topologic_sort`. A file spec is a number; the specs are a function from numbers. Its
--   children prove what each scan and the sort keep and establish. Plan/Resolve is
--   `cross_reference_resolve`, where `new_file_spec` of src/list.c gives the next number, and
--   the whole of `make_plan` for qmv.
-- - Dictionary, the interface of the hash map that Plan is given; HMap, src/common/hmap.c, the hash
--   map itself; HMap/Strings makes it a Dictionary.
-- - StringUtils, src/common/string-utils.c: the pure functions on C strings.
-- - IntUtil, src/common/intutil.c: the parsers of numbers.
-- - TabUtils, src/common/tab-utils.c: columns of texts with tab characters.
-- - Apply, src/apply.c and `free_file_spec` of src/list.c: the loop that runs the commands of a
--   plan. What a command comes to, and the world afterwards, is its parameter.
-- - Variables, src/variables.c: `set` and `show`; and the search for an edit format, src/edit.c.
-- - Deurlname, src/deurlname.c: the program that decodes URL escapes in names of files.
-- - LList, src/common/llist.c: doubly linked nodes in a memory, and the sequence of data that a
--   memory represents. Plan and Apply work on the sequence, a list of numbers.
-- - Common: numbers, lists, C strings.
--
-- A C string is the list of its bytes before the terminator. `isprint`, `tolower`, `getsubopt` and
-- the file system are parameters. Two names are two files: links, names such as `a` and `./a`, and
-- directories that are renamed together with files in them are left aside.
--
-- Fuel: `topologic_sort` has one round more than specs are pending, since every round but the last
-- takes one away; `tab_to` has `to + 1` rounds, since every tab character moves on; `uintlen` has
-- twenty, since a 64-bit number has at most twenty digits. The search for a circular set has as
-- many steps as there are specs, since the specs that it meets differ. The search for a temporary
-- name tries `limit` names, and `make_plan` has no result if all are taken; that one is free is a
-- hypothesis where a plan is promised. Whether the sort's loop has ended by its own test is part of
-- its result. A walk over a linked list has one step more than the list has entries, and a list has
-- fewer than 2^32. The other loops are structural.
--
-- Not modelled: string buffers and tree maps, and the parts that run `ls`, an editor, readline or
-- print messages. Memory is never exhausted.
pub mod Common
pub mod Quote
pub mod StringUtils
pub mod Dictionary
pub mod HMap
pub mod IntUtil
pub mod TabUtils
pub mod Plan
pub mod Apply
pub mod Deurlname
pub mod Variables
pub mod Edit
pub mod LList
