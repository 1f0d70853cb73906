-- ===== src/Lib.antt =====
-- Models of device modules of nyx-modules, the hardware modules behind nyx-lib, and the theorems that
-- make them correct.
--
-- A module is a shared object that a client opens through nyx-lib: it registers its methods on a device,
-- and a client calls them or is called back. The modules do not call each other; inside a module, the
-- methods call the functions that read the device.
--
-- Base: Boolean tests on the native numbers, lists, and the C type int as ℤ.
-- Runs: sequences of actions on a state, and what they cost.
-- Nyx: the error codes of nyx-lib.
--
-- Gestures: src/rockhopper/touchpanel/emulator/touchpanel_gestures.c and touchpanel_common.c.
--   Types has input_event_t and set_event_params; CoordBuf the circular history of coordinates
--   (update_coord_buffer, get_last_coords); Finger is gesture_state_machine_finger; Machine is
--   gesture_state_machine with add_new_finger, one function for each of its loops, and
--   Machine/Lifecycle is init_gesture_state_machine and deinit_gesture_state_machine. The static
--   variables are the record Machine; sFingers and availableFingers are lists of fingers.
--   Machine/Sessions has the calls from the start to the end.
-- Touchpanel: src/rockhopper/touchpanel/emulator/touchpanel.c. Source turns raw events into frames of
--   the machine (handle_new_event, generate_mouse_gesture, read_input_event); Items and Device are
--   touchpanel_get_event, its switch and its loop; Start is the opening and the closing of the module with
--   init_touchpanel. The machine of Gestures is a field of the state, and
--   the event array that it fills is the one that the loop reads.
--   Vbox has the requests that the start makes of the VirtualBox driver, and Memory counts the touch events
--   that are allocated, over what a client does with the module. The fingers that the closing frees stay in
--   sFingers; a restart with any of them is undefined, which is `none`.
-- Keys: src/rockhopper/keys/emulator/keys.c. Lookup is lookup_key, Device is keys_get_event. Module adds the
--   opening, the closing and the release of events, with the descriptors that are open and the number of
--   events that are allocated.
-- Charger: src/rockhopper/charger. Events has the three functions that move the event flags, Device is
--   charger/device/charger.c, Library the methods of chargerlib.c.
--   Polling has the calls of clients between the events of the device. Paths is the detection of the files,
--   through utils.c, and _charger_init with it.
--   Emulator is charger/emulator/chargerlib.c, and chargerlib.c with charger/emulator/charger.c, each as one
--   function on the calls of a client.
-- Battery: src/rockhopper/battery. Status is battery/device/battery.c with the status and two methods of
--   batterylib.c, Library the other methods and the start; Watch has the events, Sessions the calls of
--   clients in sequence, and Emulator is battery/emulator/fake_battery.c. Paths is the detection of the files,
--   and Unsupported has the functions that answer without looking at the battery.
-- System: src/rockhopper/system. Rtc is rtc.c and Device is emulator/system.c: the static variables rtc_fd,
--   rtc_channel and curr_expiry are the record Rtc, a field of the state of the module. Methods and
--   Forgotten are about one or two calls, Watching about each call on the channel
--   of the alarm, and Watch about sequences of calls, openings, closings and events. Blame is log_blame of
--   util.c: what it warns of, as a function of the files below /proc.
-- Security: src/generic/security. Keystore is the tables of keystore.c, KeyFile their saving and loading,
--   Aes is aes.c, Rsa is rsa.c and Sha is sha.c; Device is the opening and the closing of security.c, which
--   keep the key store over a restart, and Calls its methods as one function on the calls of a client,
--   with the failed assertion of aes_crypt as `none`. Dump is
--   the dump of the keys that the closing prints, and Ownership says which keys the tables destroy. Suite is
--   src/generic/security/test/test_security.c: a test is a function that says whether its assertions hold,
--   and main registers the tests first.
-- Display: src/generic/display/display.c.
-- Utils: src/rockhopper/utils/utils.c. Files is FileGetString and FileGetDouble, PowerSupply the search
--   of the directory of a power supply, from which the device variants of the battery and the charger
--   read, and Paths their arrays of paths; Sample is a small system for the examples.
--
-- What comes from outside is an argument: the results of malloc and calloc, of gettimeofday, poll and
-- read, of the sysfs files, the scaling of the pointer by floats, and the limit NYX_MAX_TOUCH_EVENTS of
-- nyx-lib (max_items). OpenSSL is a record of functions, with what is documented of it as hypotheses:
-- decryption inverts encryption, a key is read back from its encoding, and an update with a text does what
-- updates with its parts do. The driver of the real-time clock, the C calendar, the printing and encoding of
-- numbers and keys, and the file system with GLib's functions on paths are records too, with laws
-- where a theorem needs them: the driver stores alarms, timegm inverts gmtime_r and looks at the six fields
-- of the date and the time only, printing and encoding are undone by parsing and decoding. Whether GLib
-- accepts the path of a test is an argument of main, and that it refuses one twice is a hypothesis.
--
-- Bounds: the number of an array's elements is its length, and an index outside writes nothing.
-- sizeof(input_event_t) is 16, as on the 32-bit machines of the repository, so that the event
-- list has 256 entries. The type int is ℤ without a bound: C leaves signed overflow undefined. Ids are
-- uint32_t and wrap around. The constants of linux/input.h have the values of the kernel's interface.
-- The search for a free key index takes one step more than the table has entries as fuel.
-- The loop of keys.c that reads runs over the list of the results of read.
--
-- Not modelled: messages to the log other than those of log_blame, the branches of rtc.c for a build without
-- DEV_RTC_IMPLEMENTED, the opening and closing through nyx-lib in the test program of the security
-- module, and the module for device information, which the build fills in.
pub mod Base
pub mod Runs
pub mod Nyx
pub mod Gestures
pub mod Touchpanel
pub mod Keys
pub mod Charger
pub mod Battery
pub mod System
pub mod Security
pub mod Utils
pub mod Display
