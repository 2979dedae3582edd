-- ===== src/Lib.antt =====
-- Verification of rp-lib-utils, a C library of small independent utilities.
--
-- The library's parts hardly call one another: each is a family of functions over C strings,
-- memory blocks and callbacks. The development has a module for each part that it models, and in
-- it the data, the loops and the functions of the source under their names without the prefix
-- `rp_`.
--
-- Common has the shared names, lists over the native numbers, Boolean tests, bit operations.
-- Pearson stands for src/misc/rp-pearson.c and .h. `rp_pearson8` is pearson8, `rp_pearson8_len` is
-- pearson8_len, and the variants of N bits are one function pearson_n_len of N.
-- Base64 stands for src/misc/rp-base64.c. Base64/Encode and Base64/Decode are the two functions,
-- loop by loop; Layout, Rounds and Text describe and prove what is written, Accepted and RoundTrip
-- what is read.
-- ExpandVars stands for src/misc/rp-expand-vars.c. Scan is the inner loop of `expand`, one
-- function for each branch of a round; Expand is the outer loop and the functions that call it;
-- Search is the resolution of names in arrays of definitions, Calls the functions that take a
-- callback or other arrays.
-- Escape stands for src/http/rp-escape.c. Chars, Encode and Decode are the functions; Buffer is
-- the bounded output that they share. Url is the building of URLs, Args the reading of their
-- arguments; UrlForm describes a URL, UrlWriting and UrlText prove it; ArgsParts, ArgsText,
-- ArgsCount, ArgsReading and ArgsRoundTrip are about the arguments.
-- Str2Int stands for src/misc/rp-str2int.c. Digits tells the value of a digit by its place in the
-- text of the digits, Value and Bases are about the loop over the digits, Narrow about the readers
-- of the narrower types.
-- Subpath stands for src/sandbox/subpath.c. Depth is the walk along the components of a path,
-- Validity what the check decides by it, Join about paths put together.
-- EnumMap stands for src/misc/rp-enum-map.c. Entries tells which entries are found, RoundTrip is
-- about labels and values together.
-- Globmatch stands for src/sandbox/globmatch.c. Patterns describes the texts that match.
-- Globset stands for src/sandbox/globset.c, whose matching calls Globmatch. Moving and Growing are
-- about the array of lists that grows, Editing and Handlers about a change of one list, Sets,
-- Adding, Deleting and Matching about the operations.
-- JsonStr stands for src/json/rp-jsonstr.c. Escape and Escaped are the escaping of strings;
-- Reading and Values are the test of a text, Grammar is what it accepts. Rest, Scalars, Numbers,
-- Parts and Sound prove that it accepts no more, Exact, ExactScalars, ExactNumbers, ExactParts,
-- Firsts and Complete that it accepts no less, Positions and Sizes are about the size that is
-- reported, Verdict has all of it; Strings puts both halves together.
-- U16id stands for src/sandbox/u16id.c. Memory has the cells, Block is the flat block, Pointers
-- and Bits are the operations of u16id2ptr and u16id2bool. Slots, Moves, Lookup, Adding, Growing
-- and Dropping are about the cells, Update and Removal about the entries, Map and Deletion about
-- the operations of u16id2ptr.
-- Websock stands for src/sandbox/websock.c. Frame has what is sent and the fields of a head,
-- Receive the reading of payloads, Dispatch the state machine of the receiver. Heads is about the
-- heads that are read back, Control about control frames, Unmask, Reading and Dropping about
-- payloads; Gathering, Arriving, Parts and Delivery are about heads that arrive in parts.
-- EvMgr stands for src/sandbox/ev-mgr.c. Model has the records, Timers, Fds and Prepares the
-- functions on timers, file descriptors and preparers, Loop those of the manager and its states,
-- Lifetime how it is made and dropped, Lone the objects whose manager is gone. Reach is the step
-- relation of all calls and the managers that they lead to; Sound, FiredSound, FdSound,
-- TimerSound, Safe and LifeSafe show what each function keeps of a manager between calls,
-- Reachable what follows for every manager that is reached. Narrowing, Slice and Arming are about
-- the time the timer is armed for, Firing and Due about timers that are due, Watching and Closing
-- about descriptors, States about a run. The list of actions is what the functions do outside:
-- calls of `epoll_ctl`, `close` and `timerfd_settime`, of handlers, which leave the manager alone,
-- and what is written to and read from the eventfd.
--
-- Conventions. A C string or a block of memory is the list of its bytes; what the source does at
-- the terminating NUL is the clause for the empty list. A counter is a number, with the
-- wrap-around written out where the source can meet it; a line width of base64 that is negative is
-- its number of 32 bits. The success of an allocation is a Boolean argument, and what a fresh
-- block holds is an argument too; u16id has its memory in cells of 16 bits, with pointers of 64
-- bits, and N = 4 without U16ID_ALWAYS_SHRINK. Writes behind the end of a block, and reads behind
-- the end of an input, are results of their own (`overflow`, `fault`), which C leaves undefined.
-- Two reads behind a NUL that change no result are left out, in `unescaped_length` and in the
-- comparison of `rp_expand_vars_search`. A callback that the user supplies is a function argument.
-- A dispatch of an event whose descriptor `ev_mgr_unref` has freed since the wait has no result
-- (`none`), like a loop that does not end. What a web socket meets when it reads is a list of
-- arrivals and failures.
--
-- Fuel. The padding loop of base64 has one round more than the size of its output, and a pass of
-- `expand` has the length of its text, of which each round takes a byte at least; the iterations
-- of `expand` are bounded by the source's own depth of 10. The length of a path is the fuel for
-- its inspection, where each turn takes a byte at least. A loop of the JSON test has a round more
-- than bytes are left, and the recursion over values twice the length of the text and 4, since
-- each array and object takes two of its levels. `websock_dispatch` and `websock_drop` go on as
-- long as bytes come, and are on fuel. A timer's next time advances at least by 1 in each turn, so
-- that one turn more than the present time is enough. The loops over the arguments of a URL have a
-- round more than the text has bytes.
--
-- Not modelled: what rests on other libraries or on the system alone (json-c, libyaml, libcurl,
-- sockets, processes), and the copy of the nlohmann library; nor the file search paths, SHA-1, the
-- texts of socket addresses, the locale search, locks and web socket messages. Of base64, inputs
-- of 2 ^ 61 bytes or more. Of `expand`, resolution functions that answer differently in the two
-- passes. Of the event manager, handlers that call it, and the pipe that stands for the eventfd
-- without WITH_EVENTFD; the time is an argument.
pub mod Common
pub mod Pearson
pub mod Base64
pub mod ExpandVars
pub mod Escape
pub mod Str2Int
pub mod Subpath
pub mod EnumMap
pub mod Globmatch
pub mod Globset
pub mod JsonStr
pub mod U16id
pub mod Websock
pub mod EvMgr
