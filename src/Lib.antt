-- ===== src/Lib.antt =====
-- The register decoder of the GX front end: what a stream of graphics commands does to the register
-- state from which the renderer builds its draws.
--
-- The program runs a translated game on another console. The game writes a FIFO of commands for the
-- graphics chip. `process` (dependency-additions/Wiicompiled/aurora-main/lib/gx/register_dispatch.cpp)
-- takes the commands apart; BP, CP and XF registers are decoded by `handle_bp`, `handle_cp` and
-- `handle_xf` (register_decoder.cpp beside it) into `GXRegisterState` (register_state.hpp); draws go to
-- the renderer. Below, lib/ is dependency-additions/Wiicompiled/aurora-main/lib.
--
--   Base            names and lemmas that all modules share: tests, arrays, integers, bits, faults
--   Platform        what the decoder uses of code outside: the constants of <dolphin/gx.h>, byte swaps,
--                   arithmetic of floats, as a record that is an instance argument throughout;
--                   its one law is that GX_RGBA8 is at most 5, so there are six colour formats
--   View, State     lib/gx/register_state.hpp, lib/dolphin/gx/texture_object.hpp and
--                   lib/gfx/render_types.hpp: `Machine` is GXRegisterState, its members in groups, with
--                   the decoder's static variables and a log of its calls into the renderer
--   Backend         ps5/gpu/gx_viewport_backend.cpp: the setters of viewport and scissor
--   Reader          lib/gx/command_reader.hpp: read_u16, read_u32, read_u64, read_f32
--   MatrixIndex     the matrix indices that CP 0x30, 0x40 and XF 0x18, 0x19 write alike
--   Bp              `handle_bp`: Handle has the mask and the skip, Switch the switch, the other
--                   children one function for each case
--   Cp              `handle_cp`: Cache has the skip of a repeated write, Vertex the formats
--   Xf              `handle_xf`: Memory has copy_xf_data, Registers the switch, Handle the loop
--   Fifo            lib/gx/register_dispatch.cpp: Process has `process`, Aurora `handle_aurora`
--   Geometry        ps5/gpu/gx_geometry.cpp: Indices has the index buffers, Layout the layout of a
--                   vertex record, Snapshot what is kept of a draw, Decode the reader on the CPU
--   Draw            ps5/gpu/gx_draw.cpp and gx_draw_dispatch.cpp: `handle_draw` and the group of draws
--                   that waits; Joins, Sink, Leaves and Settled are its proofs
--   Depth           ps5/gpu/depth_layout.cpp and gx_depth_offset.h: the tiled layout of the depth target
--   Present         ps5/gpu/present_history.cpp: the ring of the last presents
--   Clock           ps5/runtime/fast_clock.h: the clock of many threads; System has the interleavings
--   GuestMemory     ps5/runtime/guest_memory_ps5.cpp: the guest's address space; Aliases has its views
--   AsyncLog        ps5/runtime/async_log.cpp: the queue of log text; Runs has the orders of calls and writes
--   Shader          lib/gx/register_state.hpp, its second half: which stages of a shader sample textures
--                   or keep a coordinate, the formats of copies, the wrap to 24 bits
--   Tev             ps5/gpu/gx_tev_program.cpp: the texture environment's program; Fields is what the
--                   shader (tev_stage.h) takes from it
--   CopyStore       ps5/gpu/gx_copy_store.cpp: the ranges that copies on the GPU stand for; Laid has its steps
--   Input           ps5/input: Sample has decode_pad_sample, Autopilot the playback of scripts
--   Examples        a machine with a zeroed memory, and the theorems at concrete inputs
--
-- How the code corresponds. A handler is a function from the machine to the machine; a handler that
-- reads the buffer returns an Option, where `none` is a read outside the buffer. An early return of
-- `process` is `Flow.stop`. Code that may throw returns an `Outcome`: a result, an exception, or a
-- fault. The static group of draws and the geometries that the renderer was given are `Draws`, beside
-- the machine. A `std::array` is a function of the index whose extent is not in the type. The layout
-- of a vertex record reads the table of formats and the one of colour sizes with their extents; a read
-- past them is a fault. A float is its 32-bit pattern and the operations on it are fields of
-- `Platform`; a u32 is a native number with its wrap-around written out. An enumerator that is cast
-- from bits is the number. Names follow the source in snake_case.
--
-- Fuel. The loop of `process` runs on fuel, one unit for each byte of the buffer and one more: every
-- round consumes its command byte. The loops of Geometry run on fuel too, the count of vertices: every
-- round moves on by a vertex at least. All other loops run over counts that are known at their start.
--
-- Not modelled. The renderer behind a draw is the field `sink` of `Fifo.Commands.Host`: it resolves the
-- arrays of a draw and takes its geometry. `submit_raw_draw`, which drains a FIFO of another library,
-- and the timers and counters of draws are left out. The result of `map_gx_viewport`
-- (ps5/gpu/gx_viewport.cpp) is two fields of `Platform`; texture caches and debug
-- groups are entries of the log of calls; log messages are left out, and so are assertions, which a
-- release build drops. A null buffer is the empty buffer. The mutex around `process` makes it a
-- sequence of steps. Of the analysis of shaders the conversions of floats are left out, of Input the
-- parser of scripts and all that drives SDL or the console. Clock takes the atomic operations as
-- sequentially consistent and fewer than 2^63 anchors; GuestMemory has one arena and the kernel as a
-- parameter; CopyStore has the memory and the cache of copies as parameters; the floats of Tev and the
-- formats and the write results of AsyncLog are parameters or inputs. The rest of ps5/ (the GPU's
-- command buffers and caches, runtime, tests) is not modelled.
pub mod Base
pub mod View
pub mod Platform
pub mod State
pub mod Backend
pub mod Reader
pub mod MatrixIndex
pub mod Bp
pub mod Cp
pub mod Xf
pub mod Fifo
pub mod Examples
pub mod AsyncLog
pub mod Clock
pub mod CopyStore
pub mod Depth
pub mod Draw
pub mod Geometry
pub mod GuestMemory
pub mod Input
pub mod Present
pub mod Shader
pub mod Tev
