-- ===== src/Lib.antt =====
-- A verification library for the firmware of the LoRaWAN nodes: the tracker in nodes/SodaqOneDevice
-- and the smaller sensor node in nodes/SodaqWAN.
--
-- The device wakes on timer events, takes a GPS fix, keeps the last fixes, and sends a report over
-- LoRaWAN; its parameters live in flash, are edited in a boot menu, and can arrive over the air. With
-- the GPS off it sends the readings of its sensors. The sensor node sends such readings when its
-- switch changes, when it is moved, and after each period of its alive timer.
--
-- Common: natural numbers, lists and options; Common/Bytes: little-endian numbers;
--   Common/Memory: `memcpy` into and out of arrays, where an access out of bounds is `none`.
-- Record: nodes/SodaqOneDevice/DataRecord.cpp and DataRecord.h, a byte buffer cut into fields.
--   Record/GpsFix, Record/Report and Record/OverTheAir are the three classes derived from it.
--   Record/Layout and Record/Fields hold the proofs on where a field lies and what it reads,
--   Record/Untyped those on the getter and the setter of bytes.
-- Ring: nodes/SodaqOneDevice/GpsFixLiFoRingBuffer.cpp, the last four fixes. Ring/Lifo is the list
--   that Ring/Refine compares it with; Ring/Peek is about reading.
-- Command: nodes/SodaqOneDevice/Command.cpp, the table of commands; Command/Text is what it uses
--   of the C library.
-- Config: nodes/SodaqOneDevice/Config.cpp and Config.h, the parameters; Config/Args is the table
--   of commands, Config/Crc the checksum, Config/Store and Config/Check the proofs. The library
--   FlashStorage is the record of that name, an argument of what uses it.
-- Tracker: nodes/SodaqOneDevice/SodaqOneDevice.ino. Tracker/Hex: `convertAndCheckHexArray` and
--   `setDevAddrOrEUItoHWEUI`; Tracker/Schedule: the timer events and `updateConfigOverTheAir`;
--   Tracker/Transmit: `transmit`; Tracker/SendBuffer: `updateGpsSendBuffer`; Tracker/Loop: `loop`,
--   `systemSleep` and the interrupt handlers; Tracker/Powerloss: `getPowerlossDataAndTransmit`;
--   Tracker/Readings: the callbacks of the sensors; Tracker/Messages: `updateAliveSendBuffer`,
--   `updateSwitchSendBuffer`, `updateMoveSendBuffer` and `updatePowerlossSendBuffer`;
--   Tracker/Sending: `getAliveDataAndTransmit`, `getSwitchDataAndTransmit` and
--   `getMoveDataAndTransmit`; Tracker/NavPvt: `delegateNavPvt` and `setNow`; Tracker/Acquire:
--   `getGpsFixAndTransmit` and `getDataAndTransmit`; Tracker/Acquire/Bus: the same search with
--   the parser of the bus; Tracker/GpsActive: `setGpsActive`; Tracker/Acquire/SwitchOn: the search
--   with it; Tracker/InitLora: `initLora`.
-- Sensor: the message `SensorReading` of nodes/SodaqOneDevice/sensor.proto, and the encoder nanopb, a
--   library: a record of the functions that the code calls. What its documentation says of them is
--   the record of hypotheses in Sensor/Stream.
-- Wan: nodes/SodaqWAN. Wan/Alive: Alive.cpp; of Hal.cpp, Wan/Movement: `LSM303_Update`, Wan/Hal:
--   `sendMessage`, Wan/Readings: the callbacks, Wan/Act: `Update` and `CheckAndAct`.
-- BootMenu: nodes/SodaqOneDevice/BootMenu.cpp, the line editor and the commands of the menu;
--   BootMenu/Loop: `showBootMenu`, and `handleBootUpCommands` of SodaqOneDevice.ino.
-- Gauge: `LTC::Update` of nodes/SodaqOneDevice/LTC2943.cpp, the charge over losses of power.
-- Ublox: nodes/SodaqOneDevice/ublox.cpp, the parser and the framing of UBX packets;
--   Ublox/Receiver: `GetPeriodic` and `dispatchMessage`; Ublox/Commands: the configuration messages
--   and `wait`.
-- Switch: nodes/SodaqOneDevice/Switch.cpp, the same file as nodes/SodaqWAN/Switch.cpp.
-- Calendar: nodes/SodaqOneDevice/MyTime.cpp, the days since 1970 and the rules of the
--   calendar; Calendar/Local: `mktime` and `localtime`; Calendar/Dst: the window of
--   daylight saving time.
-- Tests: the theorems at concrete inputs.
--
-- The clock RTCZero is a parameter; the theorems on it suppose that it counts, and takes the time
-- that is set, from 2000 to 2038. The rounding of a whole number to a `float` is one too, exact up to
-- 2 ^ 24. Static variables are records that the operations take and return. Integers are natural
-- numbers; where the code's types wrap, the model writes the modulus. A run ends with its result, with a
-- fault (an access out of bounds, an overflow of a signed number, the use of a variable that was
-- not assigned), or out of fuel. The loop of `transmit` has 257 rounds, since the repeat count is a
-- byte, and that of `sendMessage` six, one more than its constant; the search for a fix and the line
-- editor have as many rounds as the list of what they read, and so has the boot menu, whose fuel is
-- the length of that list: each of its rounds takes one from it.
--
-- Not modelled: the libraries copied into the directories (nanopb, the drivers of the sensors, the
-- LoRa module, the clock and its timer), printing, delays, and the parts of both programs that only
-- switch and start hardware.
pub mod Common
pub mod Record
pub mod Ring
pub mod Config
pub mod Command
pub mod Tracker
pub mod Ublox
pub mod Switch
pub mod Calendar
pub mod Sensor
pub mod Gauge
pub mod Wan
pub mod BootMenu
mod Tests
