-- ===== src/Lib.antt =====
-- with_boost: a verification library for the monitoring client of this repository.
--
-- The program is a Qt client for a server that manages cameras. A service (Src/Network/NetworkService.cpp) keeps
-- one connection: a TCP session (Src/Network/TcpSession.hpp), with or without TLS, carries framed messages
-- (Src/Network/Protocol.hpp); the message processor hands their payloads to callbacks; a UDP session
-- (Src/Network/UdpSession.hpp) puts images together from datagrams. The wrappers under Src/Crypt are the
-- sessions' TLS and DTLS. NetworkBridge (Qt/Back/Services) turns the callbacks into signals, which Core.cpp leads
-- to the stores under Src/Domain; these parse on a pool of threads (Src/Thread) and give snapshots to the list models
-- under Qt/Back/Models; QML works on the models, the services and the controllers under Qt/Back/Controllers.
--
-- What is modelled, and where:
--   Common        tests, lists, texts, integers, positions in lists, fresh numbers, text search, parts of
--                 lists, and maps that are sorted by text keys
--   Crypt         Engine is what Src/Crypt uses of OpenSSL, as an interface; Contexts, Tls, Dtls, Cookies and
--                 MediaDtls are the operations of TLS.hpp, DTLS.hpp and MediaDTLS.hpp; Read, Modes and CookieUse
--                 are about them, and Links makes them the interfaces of the sessions under Network
--   Core          the handlers of META, AI and IMAGE in Core.cpp: Handlers has them, ByIp and Images are about them
--   Domain.Camera Src/Domain/Camera.cpp: Data has the data, Store the operations of CameraStore; TableInfo,
--                 CameraList and Latest are about the sensor data that a snapshot shows
--   Domain.Json   what the stores use of nlohmann::json, as an interface
--   Domain.Device DeviceStore of Src/Domain/Device.cpp: Data has the devices and their history, Packets
--                 the handlers of the CAMERA and AVAILABLE packets; CameraId, View, Available, History and
--                 Bounded are about the identifiers, the lookup by IP, and the histories; Bounds has
--                 the lemmas of Bounded
--   Domain.ServerStatus  Src/Domain/ServerStatus.cpp: Store has the operations, History is about the statuses kept
--   Domain.Alarm  the task of the dispatcher of Src/Domain/Alarm.cpp
--   Models.CameraModel  Qt/Back/Models/CameraModel.cpp: Entry has the rows, CropRect, Split, Merge,
--                 AutoSplit, Update, Store and Lookup the operations, RowData what a view reads, Commands the sequences
--                 of operations; Edited, Tiling, SlotIds, WellFormed, SplitResult, MergeResult and Swap are about them; WellFormed.Rows and MergeResult.Tiles
--                 have lemmas of two of these
--   Models.DeviceModel, Models.UserModel, Models.AiImageModel
--                 the files of these names under Qt/Back/Models; Rows and Latest are about two of them
--   Network.Protocol, Network.TcpSession, Network.UdpSession, Network.MessageProcessor
--                 the files of these names under Src/Network
--   Network.NetworkService  Src/Network/NetworkService.cpp as steps on a queue of tasks: Order is about when
--                 messages are sent, Marks and Marks.Passes about the mark of the connection, Ends and Stuck about a
--                 disconnection
--   Services.NetworkBridge  Qt/Back/Services/NetworkBridge.cpp: Body has the bodies of messages, Device the device
--                 commands, Answers the signals; ReadBack and Status are about the first two
--   Services.ServerStatus, Services.VideoStream  the files of these names under Qt/Back/Services; Manager has
--                 the workers, Stream the streams, and Shown and Attach are about the two services
--   Thread.ThreadPool   Src/Thread/ThreadPool.cpp and ThreadPool.hpp as a step relation, with the threads that wait and the
--                 notifications that are to come; Drain and Exit are about the tasks and the threads, Alert about lost
--                 wake-ups, Ends about what the threads come to
--   Controllers.AuthController  the login and the signup controller of
--                 Qt/Back/Controllers/AuthController.cpp: Session has the operations, Sends is about
--                 what the login controller sends
--   Controllers.AlarmController  the queue of Qt/Back/Controllers/AlarmController.cpp
--   Controllers.SettingsController, Controllers.AppController  the files of these names under
--                 Qt/Back/Controllers; QSettings is an interface of the first, and Sound is about what
--                 a load of the settings leaves
-- Modules named Examples hold small runs.
--
-- How code becomes definitions. A class is a record of its members, a method a function to the new record
-- and the list of what it did outside: signals, writes, calls of callbacks. A callback that may be unset
-- is a flag. A pointer that may be null is an Option, and a worker that others point to has a serial number.
-- `double` is a type parameter with its zero; a text is a list of codes; `int` is ℤ where it can be
-- negative, and a row index that no row has is refused as in the code. The doubles of a
-- crop rectangle are counted in units of 2 to the -54th, in which the code's quotients, multiples and sums are exact
-- but for the rounding of a quotient. The counters of slot ids and groups have no upper bound. A byte or
-- a 32-bit length keeps its wrap-around. An exception of the JSON library is a value, and leaves what was written
-- before it written. A mutex makes an operation atomic; an asynchronous read or timer is a later call of
-- its handler, and an asynchronous write is done at once. A connection of OpenSSL has the contents of its two memory BIOs in it.
--
-- Fuel. `pump` takes a bound on the number of reads: two reads a message are enough. `missing_from` takes a
-- bound on the rounds of a loop, since the loop may not end: 256 rounds are enough where it does.
-- `read_loop` takes the number of bytes that are ready and one, and each round but the last reads one at least.
-- `digits` takes the number itself, which is enough for its digits. All other loops are by
-- recursion on a list or a count.
--
-- Not modelled: sockets, timers and the event loop of boost::asio, OpenSSL, nlohmann::json and QJsonDocument, which
-- are interfaces, events or parameters; logging, and the layout of Qt's model indices; the order of a QHash and the
-- conversions of QString and QDateTime, which are parameters; the decoding of videos (Src/Network/Video.cpp), the copying
-- of frames, and QML, whose windows AppController makes; the construction, the shutdown and the plain forwarding of
-- signals in Core.cpp; the unused draft Src/Network/SessionEngine.cpp.
pub mod Common
pub mod Domain
pub mod Thread
pub mod Controllers
pub mod Services
pub mod Crypt
pub mod Network
pub mod Models
pub mod Core
