-- ===== src/Lib.antt =====
-- The hub, the watcher library and the utilities of Optikus, a system that hands the variables of
-- controllers (subjects) to clients (watchers).
-- A subject connects to the hub (hub/) through the subject library (subj/), a client through the watcher
-- library (watch/). The hub names each variable by a path, gives paths numbers, and passes data and messages on.
-- Both rest on the utilities (util/), of which the hash tree holds the hub's names and numbers.
--
-- Which file models which part:
--   Tree         util/util-tree.c: treeAlloc, treeNumFind, treeNumAdd, treeNumAddOrSet; Tree/Text: treeFind,
--                treeAdd. Tree/Walk is the node array and the descent along the links, Tree/Insert the
--                insertion, Tree/Numeric and Tree/Text/Sound the two kinds of tree, Tree/Map the finite map that
--                they stand for, Tree/Refine and Tree/Text/Refine the refinements, Tree/Text/Bounds the end of the
--                buffer of strings, Tree/Full the capacity.
--   Ooid         hub/hub-ooid.c: the factory of object identifiers, two trees and a heap of paths. It calls
--                Tree and Tree/Text. Ooid/Inv is its invariant.
--   Msg          hub/hub-msg.c: ohubRegisterMsgNode, ohubHandleMsgClassAct, ohubHandleMsgWaterMark; Msg/Send:
--                ohubHandleMsgSend. Msg/Unique is its invariant, Msg/Unicast and Msg/Broadcast the routing.
--   Watch        watch/watch-op.c: the table of operations; Watch/Chain: owatchChainOps, owatchUnchainOp and
--                owatchFinalizeOp; Watch/Handlers and Watch/Idle: the handlers and the calls that are put off.
--                Watch/Slots is the invariant of the table, Watch/Access, Watch/Data, Watch/Registered and
--                Watch/Chain/Keeps what the operations do.
--   Paths        hub/hub-util.c: the parts of paths and the variables in them.
--   Trim         util/util-string.c and hub/hub-util.c: the blanks around a line.
--   Mask         util/util-string.c: strMask.
--   Convert      watch/watch-convert.c: the conversions between types. Convert/Value: owatchConvertValue,
--                owatchCopyValue; Convert/Reference compares the tables with casts, Convert/Lengths has lengths and errors.
--   Waiters      hub/hub-subject.c: ohubHandleTriggerSubject, ohubClearSubjectWaiters, ohubHandleTriggerTimeouts and
--                the replies of ohubSetAgentState. Waiters/Inv is the invariant of the counts, Waiters/Served and
--                Waiters/Stale what the operations do.
--   Quarks       hub/hub-quarks.c: records and quarks, ohubRefineQuarkAddress; Quarks/Load: ohubLoadModuleQuarks, with its
--                invariant in Quarks/Load/Inv and Quarks/Load/Chains; Quarks/Desc: ohubFindQuarkByDesc. It
--                calls Tree/Text, Trim and Ooid. Quarks/Desc/Parse has the names and indices, Range the test of the
--                indices, Search the search in the trees, Answer and Sought the whole.
--   Segments     hub/hub-subject.c: the first pass of ohubHandleSegments; Segments/Work: the second, which sets the
--                addresses that Quarks reads, and ohubSetSubjectStateByRef. Segments/Packet says what a packet is.
--   Subj         subj/subj-monitor.c: words, bit fields and memory. Subj/Access: osubjHandleDataWrite, osubjHandleDataRead and
--                osubjEverWrite, with what they do in Subj/Access/Back, Confined and Permitted. Subj/Monitors: the
--                linked list of the monitors, osubjAllocateMonitor, osubjDeallocateMonitor,
--                osubjUnregisterMonitoring; Subj/Monitors/Handlers: osubjHandleDataReg, osubjHandleDataUnreg,
--                osubjHandleDataGroupUnreg and osubjClearMonitoring. Subj/Monitors/Segs, Links and Found are about the links in
--                memory, Registered, Runs and Reach about the list that they stand for.
--                Subj/Poll: osubjMonitoring, whose packets Subj/Poll/Filled and Sent are about, and its way along
--                the records Subj/Poll/Walk and Kept.
--   Changes      hub/hub-monitor.c: ohubHandleMonitoring, which reads these packets. Changes/Wire is about one change,
--                Handed about a packet, Readable and Framed about the subject and the hub together.
--   Pending      hub/hub-data.c: the records of reads and writes, ohubAllocateData, ohubDeallocateData, ohubFindData,
--                ohubSendSecureWriteRequest, ohubSecureMoreWrites, ohubCancelAgentData and ohubCancelWatchData.
--                Pending/Inv, Secured and Reach are about their counts, Find about their identifiers.
--   Prelude      what all files share. Tests, Runs, Samples, Trials, Polls, Waits and Quarks/Load/Trial are runs at
--                small inputs.
--
-- treeAdd copies a string of any length into a buffer that it has grown once by 1024 bytes; the field `overrun` of a
-- tree says whether one went past the end. The lines of the quark tables are taken with any length of the names.
-- State is passed from call to call as a record: the tree, the factory, the registry and the table of operations.
-- OK and TRUE are `true`, ERROR and FALSE `false`; where the source ends the process by ologAbort the
-- result is `none`, and where ohubHandleMsgSend follows a pointer to a node that was freed the result is
-- `faulted`. The loop of ohubRegisterMsgNode reads a list entry that it has freed; the model takes it to be
-- as it was. Widths are written out: node numbers are
-- taken modulo 2^16, keys are the bit patterns of 32-bit integers, ooid_t has 64 bits. The numbers of quarks are bit
-- patterns too; the values that Convert reads are integers, which each cast reduces to its type.
-- Subj is about a target whose longs have the 4 bytes that the packets give them and whose words begin with their low byte;
-- memory can be read and written at every address, and osubjNew gives memory that is not in use.
-- Descents in a tree and ohubSubstEnv run on fuel: the number of slots of the tree, which a well-formed tree's links
-- never use up since they lead to higher slots, and the length of the string, of which each turn reads
-- a character; the indices of a description and a mask are read on fuel in the same way, and the
-- chain of a global name on the number of the records, since it leads to later ones. The searches along the
-- links of monitors and the polling run on their number.
-- strcmp, strncmp, isalnum, getenv, sscanf, sprintf, floating point, the packet senders, ohubSubjTrigger and the
-- handlers and chainers of clients are parameters.
--
-- Not modelled: the values and quarks of pending reads and writes, sockets, files, logs, the states of agents, the registration of monitors with the hub and in the watcher, the rest of the subject library, cancelling
-- and waiting for operations, ohubRotate, the forms, the bindings and the tests.
pub mod Prelude
pub mod Tree
pub mod Ooid
pub mod Msg
pub mod Watch
pub mod Paths
pub mod Trim
pub mod Convert
pub mod Waiters
pub mod Quarks
pub mod Segments
pub mod Mask
pub mod Subj
pub mod Changes
pub mod Pending
pub mod Tests
pub mod Runs
pub mod Samples
pub mod Trials
pub mod Polls
pub mod Waits
