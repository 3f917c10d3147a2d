-- ===== src/Lib.antt =====
-- dui is a C++ library for user interfaces. This library models the parts of it that keep a state of
-- their own and do not lay out or paint: the protocol state of the Wayland adapter, the input layer,
-- the raster thread with its surface frames, the differ and bridge of accessibility, the timeline, the
-- reconciliation of elements, and the host window between the platform's thread and the UI's.
--
-- Parts and files:
--   Wayland.Commit    WaylandExtent, WaylandCommit
--   Wayland.Surface   WaylandSurfaceState
--   Wayland.Repeat    WaylandRepeatSchedule, WaylandRepeatState
--   Wayland.Keyboard  WaylandKeyboardState
--   Wayland.Pointer   WaylandPointerState
--       all of include/dui/platform/wayland.hpp and src/platform/wayland.cpp
--   Input.Utf8        TextRange, TextEditingValue, is_valid_utf8
--   Input.Arena       GestureArena
--   Input.Focus       FocusNode, FocusManager
--       of include/dui/input.hpp and src/input.cpp
--   Raster.Frame      SurfaceFrame
--   Raster.Acquire    SurfaceRequest, SurfaceAcquisition, RasterSurface::acquire
--   Raster.Thread     RasterThread::Impl: its shared state, its clients and its worker
--   Raster.Draw       what the worker does with one submission, with its TimelineSpans
--       of include/dui/backend.hpp and src/backend.cpp
--   Semantics.Tree    SemanticsTree, and how SemanticsDiffer::update lists and checks it
--   Semantics.Differ  SemanticsDiffer
--   Semantics.Bridge  AccessibilityBridge, with its adapter (History) and generations (Publications)
--       of include/dui/rendering.hpp and src/rendering.cpp
--   Timeline          TimelineRecorder, with reads (Cursor) and snapshots (Sorted); proofs of its ring
--                     (Slots, Held, Ring), of reads (Slices, Reads) and of snapshots (Snapshot)
--       of include/dui/runtime.hpp and src/ui.cpp
--   Build             the elements of BuildOwner and their books: make_element, unmount, mark_dirty and
--                     DependencySource, of include/dui/runtime.hpp and src/ui.cpp
--   Build.Views       update_view of every kind of view, reconcile_child, of include/dui/views.hpp
--   Build.Lazy        realize_lazy_fixed_extent_range, of include/dui/views.hpp
--   Build.Root        render, flush and the destructor, of include/dui/views.hpp and src/ui.cpp; proofs
--                     of the books (Live), of an element's identity (Identity) and of lists with keys
--                     (Keyed)
--   Host              HostWindowState and its shutdown; its calls and events (Driver) and tasks (Tasks);
--                     proofs of its frames (Frames); of include/dui/host.hpp and src/host.cpp
--   Base              what they share: tests and machine words (Tests), lists over native numbers
--                     (Lists), integers (Int), the outcome of a member function (Outcome), bits
--                     (Bits), maps (Assoc)
--
-- How they interact: the keyboard state asks is_valid_utf8 of each logical key before it goes down
-- (Input.Utf8 is used by Wayland.Keyboard); the events of keyboard and pointer are the KeyEvent and
-- PointerEvent that the input layer takes. The worker of Raster.Thread draws a submission by
-- Raster.Draw, which acquires a frame (Raster.Acquire), has it rendered and presents it (Raster.Frame),
-- in spans of the recorder (Timeline). The bridge keeps a differ, and tells its adapter the changes
-- that the differ finds between two trees. The native adapter, which is not modelled, calls the
-- protocol states and reads what they return.
--
-- A build owner keeps the tree of elements, which reconcile_child changes to fit a view; elements
-- subscribe to sources, whose changes mark them dirty, and flush builds them again. A host window's
-- driver is called by the native adapters; it tells the window's delegate through the UI's queue and
-- asks for frames through the platform's.
--
-- How the code becomes definitions: a class is a record of its members, a member function is a
-- function of the arguments and the object that returns the object as it leaves it, with the value or
-- the exception (Base.Outcome). An object is left as it was at the throw, so that what is lost or kept
-- when a call throws can be stated. Exceptions are known by their class; their messages are left out.
-- A history of calls is a list or a relation of reachable states, and goes on after a call that
-- throws.
--
-- Numbers: std::uint32_t and std::uint64_t are native natural numbers. Where the source may wrap, the
-- remainder is written out (u32, u64 of Base.Tests). Where the source checks a counter before it adds
-- one, the check is modelled, and no wrap can follow. Arguments of type std::int32_t are natural
-- numbers where the source keeps them unsigned, and signed integers (Base.Int) where it tests a sign.
-- AllInRange of Wayland.Surface.Protocol asks that arguments fit their types. Coordinates of the
-- pointer are of an abstract type with the test is_finite as a parameter.
--
-- Maps are association lists; the members of one arena, a vector in the source, are a list in the
-- order in which they were added.
--
-- Fuel: scan, the loop of is_valid_utf8, has the number of bytes as fuel; each round takes one byte at
-- least. The walks up the ancestors of a focus node (fall_back, route) have the next id as fuel: an
-- id is less than it, and ids fall on the way up.
--
-- walk, the loop of SemanticsDiffer::update, has the number of nodes as fuel; each round takes one.
-- The other loops are over a list or a count.
--
-- Threads: what the code does under a mutex is one step. The raster thread is the relation Reachable of
-- Raster.Thread.Reach: submissions, stops and steps of the worker in any order. What is called outside
-- the mutex (the factory, the surface, the renderer) is an argument that says what it returns or
-- throws. The recorder is the relation Records of Timeline.Records; Timeline.Retained counts what its
-- ring holds by the calls alone, by its size and the events since the last clear.
--
-- Elements: a tree owns its elements, so the tree is a data type; what pointers reach from elsewhere
-- (the registry, dirty_ and rebuild_, the subscriptions) is kept with the owner, by id. A view is what
-- the caller built: a component carries what its build reads and returns or throws, and a view with a
-- render object carries what its work on that object throws. A flush gets, for each round of its loop,
-- what each component builds in it; the loop may go on after the rounds that are given, which the
-- result says. An id that the counter has passed could come again only after 2^64 elements; the
-- hypotheses of the theorems exclude that by the number of elements that the calls ask for.
--
-- The host window: a call of the window or of its driver is one step. dispatch_mutex makes it one, but
-- for the reset of a binding, which is one critical section of mutex, and for request_frame, which
-- takes dispatch_mutex only where it shuts the window down: it arms the frame, takes the mark of
-- exhausted generations and posts in three parts, and what another thread does between them is left
-- out. A task is one step, but for the frame's, which is two, so that calls that the delegate makes
-- while it paints come between them. Whether a post to a runner succeeds, and whether the platform's
-- control throws, is given with each step.
--
-- Accessibility: an adapter's apply is a function of the bridge and the adapter together, so it may
-- call the bridge back. The histories of Semantics.Bridge.History have an adapter that holds a view by
-- id, adds only what it has not, and updates or removes only what it has. Bounds of nodes are of an
-- abstract type with the equality that the code tests; that it chains, as == of doubles does, is a
-- hypothesis. Entries that are equal by it count as the same.
--
-- Callbacks: those of the gesture arena are a parameter that says which of them throw; what they were
-- told is kept in the arena as a list of notices. Callbacks that call the arena back for another
-- pointer than the one being resolved are left out. A key handler of a focus node is a function of the
-- event; what else it may do to the manager is left out.
--
-- Of elements of the same depth, which a flush rebuilds in any order, since the sort of the unordered
-- set of them is not stable, the model takes one order. A dependency source that an unmounted element
-- owned keeps its subscriptions in the model until the subscribers clear them or are unmounted.
--
-- Not modelled: the native adapters (Wayland, Win32), which are input and output through system
-- libraries; layout, painting and geometry, which compute with doubles; animation, tasks, the
-- inspector and its JSON. Of elements, their states, resources, restoration and render objects;
-- of the host window, semantics, text input, the clipboard, the cursor and reports of errors. Of semantics, the trees that
-- render objects make; of a submission, its layer tree; of acquisition and semantics, doubles, which
-- are abstract.
pub mod Base
pub mod Build
pub mod Host
pub mod Input
pub mod Raster
pub mod Semantics
pub mod Timeline
pub mod Wayland
