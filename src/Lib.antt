-- ===== src/Lib.antt =====
-- OS-Domotics: a tree of processes, one for each device of a house, that talk through named pipes. The
-- controller (code/src/controller.c) is the root and the only one that talks to the user; hubs
-- (code/src/hub.c) and timers (code/src/timer.c) are control devices with devices below them; bulbs
-- (code/src/bulb.c), windows (code/src/window.c) and fridges (code/src/fridge.c) are the leaves. A request
-- goes down through the control devices to the device it names, a response goes up.
--
-- Prelude: the numbers, Booleans, lists and words that all the parts use.
-- ReturnCodes, Devices, Commands: the constants and macros of code/src/headers/return_codes.h, devices.h
--   and messages.h, and code/src/return_codes.c and devices.c.
-- Text: the C strings; strtok_r and snprintf for the formats of the program, string_length and
--   string_to_unsigned of code/src/utils.c.
-- Messages: code/src/messages.c, parse_request, format_request, parse_response and format_response.
-- Utils: the rest of code/src/utils.c: names of pipes and executables, times of the day, the pipes of a device
--   (Utils/Pipes, Utils/Start).
-- Routing: code/src/routing.c, the hash table of the devices that a control device knows. Routing/Bucket and
--   Routing/Table have the table as a finite map, Routing/Refinement as its clients see it; Routing/Order,
--   Siblings, Loops and Sorted the loop over direct children, Whole the loop over all entries, Walk and
--   Descendants the walk over everything below a device; Types, Emptied, Remove, Forgotten and Cleared the updates of types and the removals; Tree a
--   table that is a tree with enough fuel. Routing/Registry is the file that the controller exports and a
--   manual interaction reads.
-- Bulb, Window, Fridge: the leaf devices, as a step on their globals; the fridge has a second thread, which
--   closes it, and its temperature is over the operations that the program uses of float (Floats).
-- Hub: code/src/hub.c. Hub/Requests is the thread that reads requests, Hub/Answers the one that reads the
--   answers of the children, Hub/Links what they do to the routing table, Hub/Shutdown the end.
-- Timer: code/src/timer.c. Timer/Commands is the main thread, Timer/Child the one that reads the answers of
--   the child, Timer/Schedule the one that switches the child, Timer/Shutdown the end.
-- Controller: code/src/controller.c. The commands of the user are parsed (Controller), checked
--   (Controller/Check), executed (Controller/Execute, Controller/Dispatch) and read from the scenario and the
--   standard input (Controller/Session). Controller/Responses is a turn of the thread for responses, with what
--   it shows (Controller/Output) and what links and deletions do to the table (Controller/Updates,
--   Controller/Deletions). Controller/Processes has the pipes and processes of the devices,
--   Controller/Shutdown the end and the processes that end by themselves, for which Controller/Burial,
--   Lacking and Buried have the proofs.
-- ManualInteraction: the commands of code/src/manual_interaction.c, which a user sends to a device directly.
-- Tests: the theorems at concrete values.
--
-- How the program is read. A process is a record of its globals, and an operation takes the record and
-- gives the new one. What the operating system answers is a parameter, the record Kernel of Utils: which
-- pipes open, which descriptors close, whether a write succeeds, the time, the locks. What an operation
-- does to the outside is a list of effects. A buffer is a list of bytes of its size. The widths of the C
-- types are kept: u8, u16 and the conversions of Prelude/Words wrap around. Pointers into the routing
-- table are the entries that they point to. The recursion of remove_routing_data, the walks up the
-- table and the loops over the devices run on fuel, and give none where it is used up; the results say
-- which fuel is enough, and Routing/Tree collects it: for each level of the tree two steps, and one for each
-- device. A rank that falls from each device to its children says that no device is above itself. The two
-- threads of the fridge take turns as a step relation. For the controller the record System adds to a Kernel
-- what fork, waitpid, kill, mkfifo and the calls on files answer; the answers may differ from one command to
-- the next. A call of handle_shutdown is a result, since nothing follows it.
--
-- Not modelled: the waiting of simulate_processing_time, the printing of errors beyond their code, signals
-- (the handlers call handle_shutdown or start sigchld_routine), the start of the threads, the child's side of
-- fork, and the terminal interface of the controller with ncurses: the text that it shows is the list of effects,
-- and what wgetnstr gives for each line is a parameter (the record Terminal of Controller/Session).
pub mod Prelude
pub mod ReturnCodes
pub mod Devices
pub mod Commands
pub mod Text
pub mod Messages
pub mod Utils
pub mod Routing
pub mod Bulb
pub mod Window
pub mod ManualInteraction
pub mod Controller
pub mod Timer
pub mod Fridge
pub mod Hub
pub mod Tests
