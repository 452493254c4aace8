-- ===== src/Lib.antt =====
-- LoLa: a link over a packet radio between two Arduino boards, a host and a remote. Services ask
-- the packet driver to send packets; the driver encodes them, keeps to its duplex slots, and shows
-- what it receives to the services.
--
-- Which file models what (paths from the repository's root):
--   Packet/Definition, Packet/Buffer, Packet/Map: src/Packet and the packet definitions of
--     src/Services. A pointer to a definition is an Option.
--   Crypto/Encoder, Crypto/KeyExchange, Crypto/Token, Crypto/Mac: src/LoLaCrypto. Crypto/Library
--     holds the third-party libraries that it calls (Ascon128, SHA256, FastCRC) as the record
--     CryptoLibrary and their documented behaviour as IsLawful and HashIsLawful; EccLibrary is
--     micro-ecc. The MAC generator's FastCRC8 keeps state between its calls: Crypto/Mac has it as
--     Crc8, with IsForgetful for its restart.
--   Driver/Clock: src/LoLaClock.
--   Driver/State: src/ILoLaDriver.h and the members of src/PacketDriver/LoLaPacketDriver.h. What
--     the driver does to the radio and to its queue of asynchronous actions is the list `effects`.
--   Driver/Slot (IsInSendSlot, IsInReceiveSlot, AllowedSend), Driver/Power (channel, power,
--     RestoreToReceiving), Driver/Send (SendPacket), Driver/Receive (ProcessIncoming, ProcessSent),
--     Driver/Events (the radio's callbacks) and Driver/Events/Machine (their sequences):
--     src/PacketDriver/LoLaPacketDriver.h.
--   Services/Manager: src/Services/LoLaServicesManager.h; it fills the record Handlers by which
--     the driver calls it.
--   Services/Send, Services/Task: src/Services/IPacketSendService.h and the scheduling of
--     src/Services/ILoLaService.h.
--   Link/Latency, Link/Power, Link/Hopper, Link/Transaction, Link/ClockSync, Link/Info: the parts
--     of src/Services/Link that the link service is made of, and src/LoLaLinkInfo.h.
--     Link/RingBuffer is the third-party RingBufCPP, a record of operations and of laws.
--   Link/Service: src/Services/Link/AbstractLinkService.h and LoLaLinkService.h beside it. The
--     service is a Sender whose client, LinkClient, holds its members and the driver; the virtual
--     methods are arguments. Service/Builders builds packets, Service/Process reads them,
--     Service/Session holds UpdateLinkState and Service/Runtime OnService.
--   Link/Host, Link/Remote: src/Services/Link/LoLaLinkHostService.h and LoLaLinkRemoteService.h, by
--     the states Awaiting and Linking; Host/Runs and Remote/Runs give their methods to the base.
--   Link/Machine: a state machine on the link state, the linking state and the encoder's stage,
--     and the way from the code of host and remote to it.
--   Link/Handshake: host and remote together: packets, keys, the crypto start, clocks; and what the
--     two do to a request of Services/Send that is under way (Handshake/Requests).
--   Surface: src/Services/SyncSurface/ITrackedSurface.h.
-- Lib's other modules: Prelude holds the shared words, lists and tests, and Tests the concrete values.
-- A method is a function of the state that it reads to the state that it leaves, beside its result.
-- Numbers are natural numbers below the width of the C++ type, with each wrap written out; a signed
-- number is its bit pattern. Time (`micros()`, `millis()`), random numbers and the radio's answers
-- are arguments. A loop over an array is recursion on its number of rounds; the one that empties a
-- queue has fuel, the number of its elements, of which each round takes one. A callback or an
-- asynchronous action runs to its end before the next one begins.
--
-- Preprocessor symbols are as src/LoLaDefinitions.h sets them: encryption and latency compensation
-- on, token hop, frequency hop and mock packet loss off, no DEBUG_LOLA. The hop to a channel, which
-- frequency hop would call, is modelled as well.
--
-- Not modelled: the registers of the Si446x radio, printing, the scheduler, interrupts in the middle
-- of a method, OnSetup and SetServicesManager of the link service, which take their pointers once,
-- the synchronisation of surfaces and the streams of src/Services, the unique identifier's source,
-- and the sketches.
pub mod Prelude
pub mod Packet
pub mod Crypto
pub mod Driver
pub mod Services
pub mod Link
pub mod Surface
pub mod Tests
