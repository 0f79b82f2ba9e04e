-- ===== src/Lib.antt =====
-- A model of AMLP, a driver for LPC games written in C++, and what is proved of it.
--
-- The driver compiles LPC source (src/compiler), runs it in a virtual machine (src/vm) with a
-- table of efuns (src/efun), keeps the loaded objects (src/object), serves players over telnet
-- (src/net), and calls objects back in time (src/scheduler). One loop ties them together:
-- Scheduler::run polls the server, whose connections hand over complete lines, fires heart beats,
-- resets and call_outs, and resumes suspended calls. A dialect (src/dialect) selects the rules of
-- FluffOS, LDMud or DGD in all of them.
--
-- The files:
--   Base           shared names; Base/Tests, Base/Lists, Base/Result, Base/Decimal, Base/Int: Boolean
--                  tests, lists over native numbers, what is thrown, std::to_string, and int
--   Dialect        src/dialect/LpcDialect.cpp: LpcDialect, dialectName, dialectFromString
--   Compiler       Compiler/Lexer and below: src/compiler/Lexer.cpp. Lexer holds the cursor and the
--                  runs of bytes, Words, Literals and Symbols the lexX methods, Tokenize the loop;
--                  Steps, Progress, Scanning, Gaps, Skipping, Spelling, Cutting, Closing, Round,
--                  Operators, Quoting and Items carry the proofs of Positions, Longest and Rendering
--                  Compiler/Ast: include/amlp/compiler/Ast.hpp, the syntax trees
--                  Compiler/Parser and below: src/compiler/Parser.cpp. Parser has the state and the looks
--                  ahead, Loops the forms of the loops, Types, Parts, Outputs, Brackets, Primary,
--                  Expressions, Statements and Declarations the parseX methods in their order; Progress
--                  and Rounds have a rule for each way to build one, and Total its use for each;
--                  Precedence writes expressions as tokens and reads them back
--                  Compiler/FrontEnd: the steps of ObjectManager::compile from lexer to syntax tree
--   Config         src/config/Config.cpp: Config the reader; Settings and Assignments are about
--                  what it sets, Trims, Says, Raw and Agrees about what the file says
--   Net            Net/Connection and below: src/net/Connection.cpp. Connection is the telnet machine,
--                  Polling pollLines and the one-shot slots, Sending the write loop; Decode, Lines,
--                  Messages, Pulling, Chunks, Subnegotiation, Replies and Outcome are proofs
--                  Net/Interactive and below: src/net/InteractiveRegistry.cpp, src/net/SnoopRelay.cpp,
--                  and attach and close of src/net/Connection.cpp
--   Object         the part of src/object/LpcObject.cpp that the scheduler and the registry of names
--                  use; Object/LivingNames: src/object/LivingNameRegistry.cpp; Object/LiveObjects:
--                  src/object/LiveObjectRegistry.cpp
--   Security       src/security/UidModel.cpp: the owners of a new object
--   Persist        src/persist/StateSerializer.cpp: the values. Persist has the fields of the text,
--                  Values the writer and the reader; Fields, Restored, Reading and RoundTrip are
--                  about the round trip
--   Scheduler      src/scheduler/Scheduler.cpp. Scheduler has the operations on call_outs, Heartbeats
--                  setHeartbeatInterval and the countdown, Ticks the calls, Resets
--                  tickResetsAndCleanup, Run the loop; Sublists, Handles, Removal, Period
--                  and Intervals are about the operations, Reaches, Rounds, Loop and Due
--                  about all runs, Shadows about the command giver, Countdown, Recorder and Servicing
--                  about the calls that are made
-- A module Examples holds the runs at concrete input of the part that it stands in.
--
-- A method is a function with its name in lower case and underscores (removeCallOutByName is
-- remove_call_out_by_name); a loop body that needs a name of its own has one. A throw is a value:
-- of Result in the lexer and the statedump, of Outcome in the parser, of Loading in the
-- configuration, `none` for the one error of a dialect's name, and a pair of state and result for
-- calls of LPC code, whose changes stay when they throw.
--
-- Representation. A byte is a number, a text a list of bytes. The lexer's cursor is the list of
-- the bytes that are left, and its line an unbounded number; character classes are those of the C
-- locale. A connection records the messages that it hands to the write loop, and the loop is a
-- function of its own; what ::read returns is a list of results. Objects are numbers, and the heap
-- maps them to their fields: weak_ptr::lock succeeds if the object's `alive` holds. Times are
-- nanoseconds of the steady clock. Handles of call_outs are unbounded numbers from 1 on, where the
-- program has an int64_t; int intervals keep their 32 bits, and a decrement of the least int,
-- which C++ leaves undefined, wraps around.
--
-- Recursion. tokenize_from is on fuel, the source's length and one: each token takes a byte. The
-- line loop is on fuel, the buffer's length: each line takes its newline. The chain of shadows is
-- on fuel, the number of objects. A value is read on fuel, of which its weight is enough: two for
-- itself and one for each member of what it holds, and theirs. run_loop goes over a list of clock
-- readings, one for each round. All other loops are structural.
--
-- Positions in a statedump are those of the whole text, since a missing delimiter sends the reader
-- back to its start.
--
-- The functions of the parser call one another behind a token where the calls lead back, so the
-- record Calls holds those calls with one unit of fuel less, and the number of the tokens is
-- enough; its loops are on fuel too, the tokens ahead and one. pos_ is the list of the tokens that
-- are left, and what restores pos_ restores it. A float literal keeps its text.
--
-- Parameters. The text of a double is one, with the tables of object ids. The type of LPC values
-- and the rest of the driver's state are parameters. The scheduler calls the virtual machine and
-- the server through the record Vm. Theorems about all runs suppose CallsReach, that these change
-- the scheduler by its own operations alone; theorems about the calls made use a machine that
-- records them and answers from a script.
--
-- Not modelled are the code generator, the virtual machine, the efuns, most of the object manager,
-- the sockets of LPC code, and the placement section of the statedump; reading files, sockets and
-- databases is input and output with no logic of its own. Of an object the parts that are modelled
-- have the fields that they use, and each has its own record.
pub mod Base
pub mod Compiler
pub mod Config
pub mod Dialect
pub mod Net
pub mod Object
pub mod Persist
pub mod Scheduler
pub mod Security
