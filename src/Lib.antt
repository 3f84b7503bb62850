-- ===== src/Lib.antt =====
-- The event gateway of eufy-mega-security, eufy_event_gateway/src/: a Node.js service that holds
-- the state of Eufy cameras, receives pushes, reassembles live video and recordings, and serves
-- Home Assistant. This library models the parts that decide what the service shows and keeps: the
-- camera state with its detection flags and timers, the order and the reassembly of NVR and PPCS
-- media, the repair of a media start, the pacing of a viewer's live video, the smart lock protocol,
-- the deduplication of pushes, and the recording cache with its byte ranges.
--
-- How the parts meet. The provider turns what the cloud and the devices send into calls of
-- GatewayState; the HTTP server shows its cameras and forwards its events. A push is first looked
-- at by PushEventDeduplicator, which says whether it may change state and whether its picture is
-- kept. Live video of an NVR comes as PTCS packets, which NvrPtcsReassembler puts together; that of
-- a HomeBase comes as PPCS datagrams: PpcsDatagramReorderBuffer delivers them in the order of their
-- numbers, #consumeData cuts the stream of each channel into commands, and PpcsAccessUnitAssembler
-- joins the frames to access units, after PpcsMediaStart has sent and repeated the start command. A
-- hole that the buffer skips makes the session drop the partial command of that channel.
-- LiveFramePacer plays the units to a viewer at the times of their clocks, with the audio that
-- parseAdtsAccessUnits admits. The lock provider builds its commands and reads the replies with the
-- E30 protocol. Recordings pass RecordingCache, and a player asks it for byte ranges.
--
-- Files.
--   Prelude and Prelude/: Boolean tests, lists over the native numbers, bytes, 16-bit integers, and
--     JavaScript's Map in insertion order (Prelude/JsMap).
--   Domain/Records, Domain/Reports, Domain/Kinds: the interfaces of
--     eufy_event_gateway/src/domain/types.ts.
--   Domain/Names: normalizePersonName of eufy_event_gateway/src/domain/gateway-state.ts, over
--     UTF-16 code units.
--   Domain/Gateway: the class GatewayState. Gateway.antt has its state and the camera that it shows
--     (getCamera, #emitCamera, #refreshAggregateMotion, #scheduleDetectionClear); Gateway/Cameras
--     has registerCamera, recordMotion, recordPerson, recordDetection and recordDoorbell;
--     Gateway/Updates has the later names, the images, the stream, the connection and close;
--     Gateway/Calls is the sequence of calls and timer callbacks. Gateway/Holds and its children
--     prove what runs keep, Gateway/Enrichment is about later names, and Gateway/Doorbell about a
--     press on a camera that loses its doorbell.
--   Domain/Diagnostics: the diagnostics of GatewayState, with History (the bounded pushes and the
--     counters) and Redaction (catalogueEvidence).
--   Domain/Locks: maskSmartLockState of eufy_event_gateway/src/domain/types.ts and the lock list of
--     GatewayState.
--   Domain/Sensors: the standalone sensors of GatewayState, with Gates about their flags and
--     capabilities.
--   Nvr/Ptcs: eufy_event_gateway/src/stream/nvr-ptcs-reassembly.ts, the whole class. Packet is the
--     checks of one packet, State the tables, Push the handler; Sender is nvrPackets of
--     eufy_event_gateway/src/stream/nvr-protocol.ts; Decode, RoundTrip, Frames and Delivery prove
--     that the two fit; Budgets and its children prove the bounds.
--   Ppcs/AccessUnits: eufy_event_gateway/src/stream/ppcs-access-unit-assembler.ts. Ppcs/MediaStart:
--     eufy_event_gateway/src/stream/ppcs-media-start.ts.
--   Ppcs/Reorder: PpcsDatagramReorderBuffer of eufy_event_gateway/src/stream/first-party-ppcs.ts;
--     Reorder.antt is one channel, Evidence the arrival evidence, Buffer the channels and the
--     calls. Holds, Earliest, Accept, Cursor, Progress and Arrivals are about one channel, the
--     children of Buffer about runs.
--   Ppcs/Commands: #consumeData of eufy_event_gateway/src/stream/first-party-ppcs.ts; Streams is
--     about a stream of commands in packets of any sizes.
--   Live/Adts: eufy_event_gateway/src/stream/ppcs-audio.ts; Batches is about batches that an
--     encoder writes. Live/Pacer: eufy_event_gateway/src/stream/live-frame-pacer.ts, the state and
--     the queue, with the calls and the timers in Handlers; Lined is about its queue, Order about
--     what it plays, with a child for the calls, the clock and the timers, and Bounds about its
--     limits.
--   Lock/E30: eufy_event_gateway/src/provider/e30-lock-protocol.ts; Reply reads a reply, Settings
--     has the settings observation, Notifications the notification commands.
--   Push/Deduplicator: eufy_event_gateway/src/provider/push-event-deduplicator.ts. Push/Mcs: the
--     framing of eufy_event_gateway/src/mega/android-push/parser.ts.
--   Recording/Cache and Recording/Range: eufy_event_gateway/src/storage/recording-cache.ts.
--
-- State and effects. A class is a record of its fields, an operation a function that returns the
-- new state with what it emits or sends, in order. A thrown error is `none` or a value of the
-- model's own. The clock's reading, and the identifier that randomUUID makes, are arguments. A
-- timer is the deadline it is set for, and its callback is a call of its own that runs at the
-- deadline or later. The pacer's times are doubles, each a whole number of units of 2^-1074 ms.
-- Numbers are the native numbers; a field of w bits is written with its remainder.
--
-- Fuel. The eviction loop of the recording cache runs on fuel, the number of its entries, which is
-- enough because each round deletes one; the loops over fragments and packets run over a count that
-- the source computes. The MCS parser's loop consumes a byte or ends in each round, and its fuel is
-- twice the length of its buffer and three more. The drain of a reorder channel has the number of
-- its held packets as fuel, since each round delivers one; the scan for commands, the fields of a
-- lock's reply and the units of an audio batch have the number of bytes, since each round takes one
-- or more.
--
-- Parameters. zlib's decompression is a parameter of Nvr/Ptcs/Push, the decoder of a PPCS frame,
-- taken as a function of the payload, one of Ppcs/AccessUnits, protobufjs's decoder of a stanza one
-- of Push/Mcs. AES-128-CBC of node:crypto is a parameter of Lock/E30; that it deciphers what it has
-- enciphered is a hypothesis of the round trip. The rounded arithmetic of the pacer's times is a
-- parameter of Live/Pacer; that it keeps the order of its arguments and adds 0 exactly is a
-- hypothesis on it. Whether the session closes while a datagram is delivered is a parameter of
-- Ppcs/Reorder.
--
-- Not modelled: the sockets, WebRTC, HTTP and cloud clients, the encryption, the device catalogue,
-- the diagnostics pages, the stations of GatewayState, the JSON and base64 envelope of a lock
-- command, and the Python integration. The time that a timer takes beyond its deadline is not
-- bounded.
pub mod Prelude
pub mod Domain
pub mod Live
pub mod Lock
pub mod Nvr
pub mod Ppcs
pub mod Push
pub mod Recording
