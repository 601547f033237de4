-- ===== src/Lib.antt =====
-- ZRay: an LLVM pass that counts a program's memory traffic by region of interest, and the runtime
-- that the counters feed.
--
-- The pass (src/zray_pass.cc, zray_loop.cc, zray_parse.cc, zray_codegen.cc) takes a region's basic
-- blocks, puts them into sets that share a counter, computes for each set a static profile
-- (include/zray_data.h) of what one execution of its instructions reads, writes and computes, and
-- inserts an increment of the set's counter. The profiles go to a log. The runtime
-- (src/zray_dyn.cc) keeps, for each thread, the counters and which regions are open; at a thread's
-- exit it multiplies each profile of the log by its counter and adds the products up by region. In
-- host mode a second thread polls all counters and writes them to a binary log, which
-- src/post_process.cc turns into one report for each poll.
--
-- The files, and what they model:
--   Base, Base/Tests, Base/Lists, Base/Word: names from the libraries, Boolean tests, lists, and
--     size_t arithmetic with its wrap-around at 2 ^ 64 (wadd, wsub, wmul).
--   Runtime: the thread_local variables of src/zray_dyn.cc as the record Thread, with
--     startTimingEvent, endTimingEvent and the increment functions (start_timing_event, ...); a run
--     is a list of events. Its children: Live (which regions are open), SaveStack, Nesting, Timing,
--     Sampling, Straight (code with no region inside), Disabled.
--   Text: trim and reduce of src/zray_util.cc on lists of bytes, with the searches of std::string;
--     the loop of reduce has the trimmed text's length as fuel, since each turn passes a byte.
--     Text/Trim, Text/Words and Text/Reduce hold the two to a reference.
--   Markers: isToolFlag of src/zray_parse.cc, with the reduced text's length as fuel (each turn drops
--     a byte at least); Markers/Scan is about the words it looks for.
--   Profile: ProfileData, its operator+ (plus) and ApplyCounter; Profile/Metrics names its counts.
--   Report: read_pd_sets, apply_indirect_counts and the calls of them in zray_finalize, on records
--     that have been read from the log. Report/Shares, Direct, Indirect and Blank are about the
--     sums that a region's row stands for; Report/Totals has the totals below the rows.
--   Record, Record/Codes: recordInst of src/zray_parse.cc; Record/Weights tells it the other way
--     round, count by count. Record/Operands: getLargeConstantOpCount, its ints as
--     patterns of 32 bits.
--   Blocks: recordTagBlocks (Blocks/Counting) and createPostDomSets (Blocks/Partition, and
--     Blocks/Order on the order of its list) of src/zray_pass.cc.
--   Loops: getLoopTripCount, createLoopTree, colorLoopTreeSF, findLoopTreeSet and recolorSFLoopSet
--     of src/zray_loop.cc; Loops/Coloring is about the numbering of the sets.
--   Hoist: instrumentSFLoopSet on a state of pragmaBlocks, LOOP_SF_SET and the counters so far.
--     Hoist/Conserved follows each block, Hoist/Colors and Hoist/Progress the colours of the tree,
--     Hoist/Search what findLoopTreeSet finds.
--   Region: _instrumentDynamicLoops, insertDynamicLoopCounter, and the part of
--     InstrumentPragmaRegion that places counters. Region/Conserved, Ending, Whole and Lost.
--   Emit: what is inserted for a counter: its call, its record in the log, the counts of events, and
--     the clones of the functions that its blocks call (processCallInst). The instructions of a
--     block are those before insertion: the source records the calls for a thread's exit and
--     registration in the entry block too. Emit/Keys, Cloning and Tagging are about what
--     recordTagBlocks leaves alone.
--   Discovery: recordPragmaRegions, detectPragma and runOnFunction, on a function whose blocks have
--     been split at the markers; Discovery/Split has splitInstrumentedBlocks, which does that to each
--     block, and Markers/Group getGroupID. The depth of the search has the number of the function's
--     blocks as fuel, since each call visits a new one. Discovery/Reach and Walk are about the blocks
--     that are visited, Keys, Numbers, Calls and Listed about the regions' numbers.
--   ModulePass: InstrumentPragmaRegion, with Region's counters inserted by Emit, and runOnModule from
--     the list of regions on: the loop over clones has as fuel the number of the module's functions,
--     since each is cloned once. ModulePass/Events, Slots, Apart, Regions, Clones and Whole follow
--     the places that the sets get in the arrays of counters.
--   LogFile: the profile log as bytes: what insertCustomEvent writes for a record, and the reads of
--     read_pd_sets, with the file's length as fuel (each round takes the bytes of a profile). A word
--     has its low byte first. LogFile/Words, Raw, RoundTrip and Fuel are about it.
--   Host: the map of registered threads and the poll loop of src/zray_dyn.cc, from a log that is
--     empty at first or (restarted) left by an earlier run, with the threads polled in the order in
--     which they were added; Host/Registry.
--   PostProcess: the main loop of src/post_process.cc, and in PostProcess/Finalize its own
--     operator+, ApplyCounter, read_pd_sets, apply_indirect_counts and zray_finalize. Alike compares
--     them with the runtime's one by one, Updates and Reports on whole reports, with FirstSet and
--     EpochSums.
--     PostProcess/Decode reads back what the host wrote, History and Monitor connect it with the
--     host's operations, Leftover is about the log of a second run, Epochs, Sums, Overflow and Idle
--     are about the reports.
--   The modules named Tests run the definitions on small inputs.
--
-- How the parts meet. Counter names a set's blocks as Blocks and Hoist make them; Record and
-- Blocks/Counting give the profile that the set's record carries; Runtime advances the counter that
-- Report multiplies it by. Discovery makes the list of regions that ModulePass starts from, LogFile
-- carries the profiles from the pass to Report, and PostProcess reads what Host writes.
--
-- Numbers. size_t is a native number with `% 2 ^ 64` written out, also where the source subtracts.
-- An int that is used as an index is sign-extended (as_index). Arrays of the runtime are functions
-- of the index; a list stands for a vector, and an index past its end, which the source does not
-- check, changes nothing.
--
-- Fuel. The loop over the sets of loops gets the number of loops and one more: each round finishes
-- a set, and Region/Ending shows that fewer nodes are left. createPostDomSets gets the number of
-- blocks, and the main loop of the post-processor the number of words of the log; each round of
-- these takes one at least.
--
-- What LLVM knows is an argument: an instruction's facts (Record.Inst), a loop's header, blocks and
-- backedge count (Loops.Facts), the two dominator trees (Blocks.Relation), whether ScalarEvolution
-- still knows a loop after SplitEdge (Env.regains), and the offsets of blocks. The property on whole
-- regions has the hypothesis Regains, that ScalarEvolution finds these counts again.
-- recordInst and getLoopTripCount are modelled with assertions on, as built without NDEBUG: `none`
-- is std::terminate. What memory holds before it is written is an argument too (held).
--
-- Not modelled: hardware counters (USE_HW_PERF_COUNTERS), the text of the reports and the sidecar
-- file, the generation of LLVM IR, recordStackAddresses, and the scale factor check, a debugging
-- pass. The host's log is a list of size_t words, which is how both sides read and write it; a
-- record that is cut off leaves what the memory held.
pub mod Base
pub mod Runtime
pub mod Text
pub mod Markers
pub mod Profile
pub mod Report
pub mod Record
pub mod Blocks
pub mod Loops
pub mod Hoist
pub mod Region
pub mod Emit
pub mod Discovery
pub mod ModulePass
pub mod LogFile
pub mod Host
pub mod PostProcess
