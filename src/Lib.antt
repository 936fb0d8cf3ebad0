-- ===== src/Lib.antt =====
-- mpris-chroma: the event pipeline, from the bytes of the player feed to the calls of wlchroma-ctl.
--
-- A line of the feed is framed (src/framing.rs, Framing.antt), parsed and noted by the coordinator
-- (src/coordinator.rs, Coordinator.antt and its children), which chooses a player (src/select.rs,
-- Select.antt) and hands the desired end-state, under a generation, to a host. In the daemon the
-- host puts it into a one-slot mailbox and keeps the retry timer (src/runtime.rs, Runtime.antt). The
-- worker (src/worker.rs, Worker.antt, and Worker/Pump.antt for its loop) takes the job, resolves the
-- cover (src/cover, Cover.antt and its children), extracts colours and calls wlchroma-ctl; its
-- result returns to the coordinator through the loop. Apply.antt is the wlchroma-ctl client
-- (src/apply.rs), Memo.antt the memo over palette selection (src/color/mod.rs), Sources.antt what a
-- portal signal means and the reader of playerctl's output (src/sources). State.antt holds
-- src/state.rs, Job.antt the data of src/worker.rs that both sides share.
--
-- A cover's colours (src/color) come from its bytes in stages. Color/Decode.antt is
-- src/color/decode.rs, the guards before an image is decoded and the conversion of its pixels, with
-- the block average of a JPEG in Color/Raster.antt; Color/Resample.antt is src/color/resize.rs, the
-- coefficients (Color/Resample/Fits.antt) and the passes. Quantize.antt and its children are
-- src/color/quantize.rs: the boxes and their heap (Quantize/Heap.antt), the split of a box at the
-- median of its widest channel (Split), the tree that is cut (Cut), the palette that the leaves give
-- (Paint), and the search for an entry near a pixel (Nearest). Color/Pick.antt is src/color/pick.rs,
-- which ranks the histogram and picks up to three sources. Color/Tone.antt is src/color/tone.rs, the
-- bands of tone and the keeping apart of the colours; Color/Ramp.antt is src/color/ramp.rs.
-- Color/Oklab.antt is src/color/oklab.rs, the colour spaces and the texts of colours, and
-- Color/Extract.antt composes what follows the decoding as src/color/mod.rs does.
--
-- How the source is read:
--   - A handler is a function from state to state. The coordinator's `Host` is an interface: the
--     theorems on it hold for every host, for the recording one of the source's tests
--     (Coordinator/Fake.antt), or for the daemon's (Runtime.antt), as their statements say.
--     Coordinator/Run.antt lists the calls a run is made of, and what a property must be checked for
--     to hold after any run.
--   - The worker's thread runs over a world that its stages, the other threads and the mailbox share;
--     what the others do before a lock is taken is `interlude`, after its release `released`. A stage that panics has no result.
--   - The loop of the runtime runs over a script of turns: what waiting gave, how long it took, and
--     whether the worker took the pending job or died meanwhile. Structural recursion on the script
--     stands for the endless loop.
--   - The framer's loop has fuel one above the buffer's length, and each turn takes at least the
--     newline off the buffer, so the fuel is never used up; the statement on all reads shows it.
--     The redirect loop counts its eleven hops as the source does. A body is the finite sequence of
--     what its reads give.
--   - Text is a list of Unicode scalar values, bytes are numbers. A HashMap is an association list.
--     Counters that move by one per event (sequence numbers, generations, timer and attempt counts)
--     and sums of file sizes are unbounded; the wrap-around is written out where the source shifts
--     or saturates. Subtraction stops at 0 where the source's does.
--   - The floats of src/color are the interface `Float` of Color.antt. It has no laws, so a theorem
--     over it holds for every arithmetic, with NaN and rounding. The rounded mean of
--     src/color/quantize.rs is written on whole numbers: with sums below 2^40 and counts below 2^32
--     the quotient of two `f64` is on the same side of each half. In src/color an index out of range
--     or an `unwrap` that fails gives none, but for the quantizer's lookups of a box, of a heap slot
--     and of a palette entry in its search: their indices come from the same lists, and they have a
--     default. `u32` and `i32` keep their wrap-around, but where 8-bit channels rule it out.
--   - Times are nanoseconds. An `f64` jitter is its bits, and the products with it are parameters.
--   - The url crate, SHA-256, Unicode lower-casing, message formats, the file system, the HTTP client
--     and the image crate are parameters; the laws asked of them are named where they are used.
--     The file system is asked through Cover/Disk.antt; a directory's listing is read at once.
--
-- Not modelled: the process of a wlchroma-ctl call (`ProcessRunner` of src/apply.rs), the processes
-- and the listeners of D-Bus and signals (the rest of src/sources), the spawning of the worker's
-- thread, the system resolver's thread, the HTTP client, the naming of temporary files, and the
-- wiring (src/main.rs, src/daemon.rs): threads, processes and pure I/O. Logging is left out but for
-- the warnings that are limited.
--
-- Prelude.antt passes on the shared names: tests on numbers, lists, texts, dictionaries, results,
-- signed numbers and UTF-8. Each component's Tests.antt runs it on concrete input.
pub mod Prelude
pub mod State
pub mod Job
pub mod Select
pub mod Coordinator
pub mod Runtime
pub mod Framing
pub mod Cover
pub mod Worker
pub mod Apply
pub mod Memo
pub mod Quantize
pub mod Color
pub mod Sources
