-- ===== src/Lib.antt =====
-- Vulkan-Cocoa-Core gives macOS frameworks (AppKit, Metal, OpenGL, Quartz) on top of Vulkan. This
-- library models parts of its Rust code as functions and states what makes them correct. Paths are
-- from the repository's root.
--
-- Parts and files:
--   * Common: names that the other modules share, Boolean tests on numbers, lists indexed by
--     numbers, and lemmas on bits.
--   * Machine: outcomes of a run (a value, an error, a panic), the two builds (with overflow
--     checks, the dev profile; and wrapping, the release profile), machine arithmetic, code that
--     changes a state (Stateful), and the postconditions Ensures and Certain that the proofs are
--     built from.
--   * Air: src/shader_jit/air_parser.rs, the parser of LLVM bitstreams. Reader has BitReader,
--     Abbrev the abbreviations (read_abbrev_def, read_abbreviated_record), Block parse_block,
--     Locate locate_bitstream, Tags scan_known_air_tags, and Parse parse. A method on &mut
--     BitReader takes the reader and returns it beside its result.
--   * Jit: src/shader_jit/transforms.rs (Transforms: AirTransformer) and src/shader_jit/mod.rs
--     (Compile: ShaderJitContext). The compiler parses its input by Air.Parse and hands the module
--     to the transformer, whose counter it keeps.
--   * Device: src/vulkan_backend/mod.rs. Driver is what is asked of the Vulkan driver, Queues has
--     pick_queue_families, Select score_candidate and select_physical_device, and Logical
--     create_logical_device and build_shared_device.
--   * Gl: src/frameworks/opengl_sys.rs, the six OpenGL functions (glGenBuffers is gl_gen_buffers,
--     and so on) on a context and a log of the calls to the Vulkan device.
--   * Windows: the table of window states of src/frameworks/appkit.rs (Table) and the handlers of
--     NSWindow and NSView of src/bridge/swizzle.rs (Handlers), with the events that go to the
--     compositor and to delegates. Install has the installation of the classes, against the
--     Objective-C runtime as a parameter (Windows.Install.ObjcRuntime).
--   * Render: WindowRenderContext of src/vulkan_backend/state_machine.rs. Display is what is asked
--     of the driver, Choose the choices of build_swapchain, Objects the log of the objects that
--     are made and destroyed, Context build_swapchain and drop, and Frame new, tick and
--     submit_and_present; Frame/Session composes them, with request_resize, as the host does: an
--     image that tick hands out is presented. A method returns the context also beside an error.
--     Resize has PendingResize, whole (request, take) and in single steps of two threads.
--     Swapchain has the WindowRenderContext of src/vulkan_backend/swapchain.rs, which shares data
--     and steps with the other: its methods are the shared ones at its own way to build the
--     swapchain (new_by, rebuild, present_by), and a tick of its own.
--   * Images: src/vulkan_backend/resource.rs. Gpu is what is asked of the driver and of IOSurface,
--     and the objects that are live; Memory has find_memory_type, and Image GpuImage,
--     create_color_attachment, import_opaque_fd and import_from_mach_port.
--   * Compositor: src/bridge/compositor.rs. Server has QmvServer and the callback for frames, on
--     what is held of the native side; Session runs them from start to drop.
--
-- Numbers are natural numbers, and what a machine integer does at its bound is written out. A
-- HashMap is an association list, a String its bytes, a handle a number with 0 for the null
-- handle. The Vulkan driver is a parameter: the records Device.Driver.Driver, Gl.Types.Gpu,
-- Render.Display.Display and Images.Gpu.Gpu. So are the Objective-C runtime, as far as the
-- installation of the classes uses it (Windows.Install.ObjcRuntime), and the native host
-- (Compositor.Server.Host). A driver's documented promises are hypotheses of the theorems that
-- need them.
--
-- Loops over bits carry fuel: one round for each bit of the buffer and one more, which is enough
-- since each round reads at least a bit. The tick of swapchain.rs calls itself, and has fuel for
-- the number of calls; it runs out only where the driver had no image ready on as many
-- acquisitions. All other loops are structural recursion.
--
-- Not modelled: the depth of the stack, in particular of the recursion of parse_block; a failing
-- allocation of at most isize::MAX bytes; log messages; the mutexes around the shared state, each
-- function running on its own; what a delegate does when it is called; the surface of a window and
-- the destruction of the shared device in src/vulkan_backend/state_machine.rs and swapchain.rs,
-- the front end for Metal (src/frameworks/metal_sys.rs), which allocates Objective-C objects
-- without state, the layers of src/frameworks/quartz_core.rs, whose drawables keep their index
-- outside of their objects, NSScreen with its monitors, which stand in collections of Foundation,
-- NSApplication's own methods, the senders of Objective-C messages, and the code in C, C++, Swift,
-- Objective-C and Python.
pub mod Common
pub mod Machine
pub mod Air
pub mod Jit
pub mod Device
pub mod Gl
pub mod Compositor
pub mod Images
pub mod Render
pub mod Windows
