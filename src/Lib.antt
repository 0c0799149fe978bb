-- ===== src/Lib.antt =====
-- Essenty, modelled from its Rust crates. The program keeps the lifecycle of an application's
-- components, routes back events to them, saves and restores their state, and retains instances
-- across configuration changes; a runtime dispatches one platform event at a time over the four.
--
--   Lifecycle       crates/essenty-lifecycle/src: LifecycleState and LifecycleError (State), the
--                   registry with move_to, its guarded steps and delivery (Registry), subscribe with
--                   its replay, the guards and the helpers do_on_... (Subscribe).
--   Back            crates/essenty-back-handler/src: events (Event), entries, listeners and the
--                   choice of a winner (Dispatcher), dispatch_to and the gestures (Gestures).
--   StateKeeper     crates/essenty-state-keeper/src: StateKeeper and its operations (Keeper).
--   InstanceKeeper  crates/essenty-instance-keeper/src: InstanceKeeper and its operations (Keeper).
--   Runtime         crates/essenty/src/runtime.rs: Runtime::dispatch over the other four (Dispatch).
--   Android         crates/essenty-android/src/native_state.rs: the byte container of a saved state
--                   with its checksum (Container) and NativeActivityState over it, with state_keeper.rs
--                   (ActivityState); back_handler/platform.rs beside it: the adapter of the platform's
--                   back events over the dispatcher (BackHandler), what it asks of Java (Java), the jobs
--                   on the Java main thread (JavaMain), the proxy (Proxy) and the steps of the two
--                   threads (Threads).
--   Web             crates/essenty-web/src/storage.rs: the names of stored entries and the text form of
--                   bytes (Storage); wasm/browser_storage.rs beside it: load and save of a namespace
--                   (Browser) over an area of Web Storage with the laws of its standard (Area).
--                   history.rs, wasm/browser_lifecycle.rs and wasm/browser_history.rs: the events of a
--                   page and the listeners of the bindings, over a page with laws (Page).
--   Adapters        the lifecycle.rs of crates/essenty-android/src, crates/essenty-apple/src and
--                   crates/essenty-web/src: the hosts that move a registry on callbacks (Hosts);
--                   notification.rs and shared.rs of crates/essenty-apple/src (Shared) with
--                   macos_native.rs (Macos), uikit_native.rs (Uikit) and watch_native.rs (Watch);
--                   native_activity.rs of crates/essenty-android/src (Activity).
--   Tokio           crates/essenty-lifecycle-tokio/src: what the code asks of Tokio (Runtime), run_repeat
--                   of repeat.rs between its awaits (Repeat) and in any interleaving (Steps), its loop
--                   over a channel (Ending), and LifecycleScope of scope.rs (Scope).
--   HostConfig      crates/essenty-android/src/native_config.rs: the categories (Category), their set as
--                   a word (Set), the manifest text (Manifest), the report of a host (Report) and the
--                   inspection that asks the host for it (Inspect).
--   Common          BTreeMap as an association list in the order of its keys (Map), orders (Order),
--                   Result and partial runs (Results), u32 bit operations by their
--                   digits (Bits), texts with split, trim and join (Text), tests and lists.
-- The other files of a part are proofs, named for what they prove; Examples runs the code on concrete
-- inputs.
--
-- An observer of the registry may call the registry, which notifies observers again. Its closure is
-- therefore a Script: the calls that it makes, with the continuation for each answer. exec runs a
-- script on a World, which holds the registry, the cells that do_on_... closures capture, and the
-- memory of the application; its fuel bounds how deep such calls nest, since the code itself may nest
-- for ever. World.entered records the states entered and is read by no operation. rounds bounds the
-- loop of move_to: a route has at most three states, so four rounds are enough. The part of move_to
-- for targets other than Destroyed is move_within, which destroy calls for Created. A Subscription
-- is the id that it holds, and the World or its absence is passed beside it for the weak reference.
--
-- A back callback runs while the dispatcher is mutably borrowed and can only queue commands, so it is
-- a Reaction: what it queues, and what it leaves in the memory. A command may cancel the owner of a
-- gesture, whose callback queues commands in turn; dispatch_to has a depth, and depth two is enough. A
-- listener of the aggregate writes the same memory; a predicate Knows says what it makes of a value.
--
-- u64 counters wrap, as in a release build. i32 priorities are integers that are only compared, and
-- f32 is a type F that the code only stores. Text and bytes are lists of numbers. A provider of state
-- is a function of the live memory; codecs are functions that the caller gives. An Rc is an address, a
-- type id and a value; when values are dropped is left to Rust. A cursor into bytes is the rest of the
-- bytes behind it, and the test for UTF-8 is a parameter is_utf8.
--
-- The runtime of Tokio is a parameter: a record Tokio of what spawn, abort and the termination of tasks
-- do to its state, with their documented laws, and a relation Progress for what happens between two
-- calls. run_repeat is cut at its awaits: receiving stands for recv, stopping for the await of an aborted
-- handle. The channel is unbounded and in order, so its states are given one after another; Repeat.seen
-- and Repeat.launched record states received and children launched and are read by no operation. drain
-- runs the loop over a list of states while the runtime brings every aborted child to its end. The
-- memory of the lifecycle of a scope holds the handles and the runtime. A spawn makes two calls of Tokio, and its
-- argument meanwhile is what the runtime does between them.
--
-- The JNI calls of an inspection are a parameter: a record Jni of them, each with the environment of the
-- thread that it leaves, and the record Documented of what the two wrappers and the clearing of an
-- exception do. The log is the list of its lines.
--
-- An area of Web Storage is a parameter: a record WebStorage of its operations, where none is an exception
-- of the browser, with the record Lawful of what the standard says of those that do not throw. A write
-- that throws ends save, and what was written before it stays. load and save count up to the length that
-- they read at their start.
--
-- AndroidBackHandler hands jobs to the Java main thread: posted lists them, oldest first, and a job runs
-- as one step, since Java runs one at a time and a handler waits for none but that of close. The Java
-- side is a parameter: a record JavaCalls of the calls that a job makes, each of which may fail, with what
-- they mean for the proxies that Java calls on a back event. Main holds what the jobs share: the mutexes of
-- the registrations of all handlers, by their identity, and the list of those to retry. No mutex is
-- poisoned. BackExamples and JavaExamples run the two sides.
--
-- A page is a parameter: a record Dom of its listeners, its visibility and what adding and removing a listener
-- does, where none is an exception of the browser. A listener is the binding that owns it and its event. The
-- observers of Apple's notifications are given by the notifications that they are registered for, and the
-- events and the input of a native activity by the lists that android-activity hands over.
--
-- A manifest text is a list of characters, an i32 of flags its word of 32 bits, and the format {:x} is a
-- parameter lower_hex.
--
-- Not modelled: debug output, the texts of NativeConfigCategory::summary, wakers, the other logs, the
-- libraries behind the parameters, and the experiments.
pub mod Common
pub mod Lifecycle
pub mod Back
pub mod StateKeeper
pub mod InstanceKeeper
pub mod Runtime
pub mod Android
pub mod Web
pub mod Adapters
pub mod Tokio
pub mod HostConfig
