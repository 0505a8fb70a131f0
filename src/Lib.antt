-- ===== src/Lib.antt =====
-- CANopenNode: the communication objects of a CANopen device.
--
-- The program is a CANopen stack. A driver hands each received message to the receive function of
-- the object that registered for its identifier, and the main loop calls the process function of
-- each object with the time that has passed. The objects meet in the emergency object, which all of
-- them report errors to and ask for errors, and in the NMT state of the node, which the NMT object
-- owns. Object dictionary functions let the SDO server configure an object.
--
-- Files, each with the code that it models:
--   Driver                  types of stack/drvTemplate/CO_driver.h and stack/CO_SDO.h
--   Emergency               stack/CO_Emergency.c: CO_errorReport, CO_errorReset, CO_isError
--   Emergency/Codes         stack/CO_Emergency.h: the error bits and codes that are used
--   Emergency/Process       stack/CO_Emergency.c: CO_EM_process, CO_EM_init
--   Emergency/Od            stack/CO_Emergency.c: the functions of objects 0x1003 and 0x1014
--   Nmt, Nmt/Leds           stack/CO_NMT_Heartbeat.c: all functions
--   HbConsumer              stack/CO_HBconsumer.c: CO_HBcons_receive, CO_HBconsumer_process
--   HbConsumer/Config       stack/CO_HBconsumer.c: initialisation, object 0x1016 and queries
--   Sync, Sync/Od           stack/CO_SYNC.c: all functions
--   Lss                     stack/CO_LSS.h
--   LssSlave                stack/CO_LSSslave.c: initialisation, callbacks, process, state
--   LssSlave/Services       switching by state, configuration, inquiry
--   LssSlave/Fastscan       the identification by fastscan
--   LssSlave/Receive        the dispatch of a message
--   LssSlave/Led            CO_LSSslave_LEDprocess
--   Sdo                     stack/CO_SDO.h: the object dictionary and the server
--   Sdo/Od                  stack/CO_SDO.c: CO_OD_find and the other CO_OD functions
--   Sdo/Access              CO_SDO_initTransfer, CO_SDO_readOD, CO_SDO_writeOD
--   Sdo/Receive, Sdo/Init   CO_SDO_receive; CO_SDO_init, object 0x1200
--   Sdo/Outcome             CO_SDO_abort, and how a case of the state machine ends
--   Sdo/Download, Sdo/Upload   the cases of CO_SDO_process, by direction
--   Sdo/Process             CO_SDO_process
--   SdoClient               stack/CO_SDOmaster.h; stack/CO_SDOmaster.c: reception, abort
--   SdoClient/Setup         CO_SDOclient_init, initCallback, setup and close
--   SdoClient/Download      CO_SDOclientDownloadInitiate, CO_SDOclientDownload
--   SdoClient/Upload        CO_SDOclientUploadInitiate, CO_SDOclientUpload
--   SdoClient/Local         both, when the server is the one of the same node
--   Pdo                     stack/CO_PDO.h: the objects and their parameters
--   Pdo/Receive, Pdo/Process   stack/CO_PDO.c: CO_PDO_receive, CO_RPDO_process
--   Pdo/Transmit            CO_TPDOisCOS, CO_TPDOsend, CO_TPDO_process
--   Pdo/Com, Pdo/Map        the configuration of the communication and of the mapping
--   Pdo/Od, Pdo/Init        the object dictionary functions, initialisation
--   Pdo/Places              the bytes that map pointers point to
--   Daisychain              stack/CO_Daisychain.c: all functions
--   Crc16                   stack/crc16-ccitt.c
--   Prelude                 tests, arrays, words and bits that all of them use
-- The other files below a component state what is shown of it; each component has a file of tests.
--
-- State and operations: a C structure is a record with the fields of the structure, and a function
-- that changes it takes the record and returns the new one, with the messages that it sends, the
-- callbacks that it calls and its result beside it. A pointer to another object is an argument. A
-- guard against NULL is an argument that says whether the pointers are given, where the function
-- returns an error for it. Pointers into the emergency buffer are slot numbers of its 10 slots. A
-- callback without a result is a flag that says whether one is registered; one with a result is a
-- function.
--
-- Integers are natural numbers, with each wrap of a machine word written out. An int8_t is held as
-- its bit pattern. A value that is read from a message or a byte array is a byte where a statement
-- needs it, as its hypotheses say. Loops run over the lists that stand for the arrays, so no fuel is
-- needed, but for CO_OD_find, which has 16 passes: enough for the 65535 entries that the size of a
-- dictionary allows.
--
-- The SDO server: the size of its data buffer is a field, set when the program is built. A pointer into
-- the object dictionary names the place in its entry. The pointer to the data of a transfer stands at
-- the start of the data buffer but for the refill of a domain, where the base is an argument. An object
-- dictionary function is a function of its argument and the data; the objects of the other components
-- that such a function works on are not part of the server. The processor is little endian.
--
-- The SDO client: the buffer that the user gives is the list that the client points to, and it is lent
-- to the server of the own node for an access there. That the transmit buffer is full, which the driver
-- knows, is an argument, and so are the parameters of the client. The dialogue of a client with a server
-- has the number of the calls that are left for fuel; each call moves up to seven bytes.
--
-- PDOs: a map pointer is a place: a dummy, or a byte at an offset from where a pointer into the
-- dictionary points. The communication and mapping parameters, the SYNC object and the NMT state are
-- arguments. Manual control and the calls of object dictionary functions are compiled out by default,
-- and not modelled.
--
-- A message is received, or an object is processed, in one step: interrupts between the
-- instructions of one function are not modelled, but for the messages that arrive while
-- CO_RPDO_process copies; the locks around the emergency buffer and the receive flags are taken
-- to hold. Not modelled are the LSS master
-- and the trace; the drivers, whose calls are results here; the allocation of the
-- objects in CANopen.c; and the example object dictionary, which is generated.
pub mod Crc16
pub mod Daisychain
pub mod Driver
pub mod Emergency
pub mod HbConsumer
pub mod Lss
pub mod LssSlave
pub mod Nmt
pub mod Pdo
pub mod Prelude
pub mod Sdo
pub mod SdoClient
pub mod Sync
