-- ===== src/Lib.antt =====
-- The Azure IoT Hub library for Go: a client for devices and one for services.
--
-- A device opens a transport (MQTT) with its credentials. The transport turns topics of the hub into
-- messages, twin states and method calls, which the client's dispatchers fan out to subscriptions and
-- handlers; requests to the hub wait in a table until a response with their id arrives. Credentials
-- come from a connection string, and sign the tokens that the hub accepts.
--
-- - Sas: common/sas.go. parse_connection_string, sas; a Go panic is the outcome `panic`. base64 and
--   HMAC are the argument Crypto; time.Now() is the argument `clock`, in nanoseconds.
-- - Message: common/message.go, the struct that all protocols share.
-- - Device/Once, Device/Mux, Device/Methods: iotdevice/mux.go. The events and the twin states have
--   the same dispatcher, modelled once; Device/Mux/Steps makes its interleavings a step relation:
--   Dispatch, sub, unsub, close, the goroutines of Dispatch, and readers. Device/Mux/History has
--   what each subscription is due, as a specification. A channel is its buffer, with capacity ten.
--   The closures of Dispatch share the loop's variable, as in Go before 1.22.
-- - Mqtt/Topics, Transport, Requests, Sending, Callbacks: iotdevice/transport/mqtt/mqtt.go.
--   parseEventMessage, parseCloudToDeviceTopic, parseDirectMethodTopic, parseTwinPropsTopic; Connect,
--   sub, the on-connect handler, send, Close; request, cut in two around its wait,
--   enableTwinResponses and the callback of the responses; Send; the callbacks of the other
--   subscriptions over the dispatchers, and both twin calls. The MQTT library is the argument Broker,
--   with contextToken's wait for its tokens. Mqtt/Requests/Steps makes the transport's calls, the hub's
--   responses and reconnections a step relation. Mqtt/Port has New with its options, and the transport as
--   the record Port of the device client; what happens while a request waits is the argument `pause`.
-- - Device/Client: iotdevice/client.go over transport.Transport, the record Port: Connect,
--   checkConnection, the subscriptions, the methods, SendEvent with its options, Close. A call takes
--   the branch of checkConnection's select as an argument.
-- - Device/New: NewClient and its options.
-- - Cli: cmd/internal/cli.go, over the argument Flags for Go's flag package: New, Run with its usage
--   messages, findCommand, ArgsToMap.
-- - Program/Device, Program/Service: cmd/iothub-device/main.go and cmd/iothub-service/main.go over the
--   clients and Cli: wrap, the commands and, in Table, the list of them with their flags. What a
--   subscription yields and the first error of a handler are arguments. Program/Flags: what both share.
-- - Amqp: common/commonamqp/message.go, both conversions, with the panics of type assertions.
-- - Creds: iotdevice/creds.go, and the login of the MQTT transport's Connect.
-- - Service: iotservice/client.go and registry.go: deviceKey, DeviceConnectionString, DeviceSAS, the
--   send options, SendEvent up to the link, and how `call` reads a response. Service/Rest has `call`
--   over the argument Http, Service/Rest/Registry every operation that it carries; Service/Connect
--   has ConnectToAMQP, connectToEventHub, SubscribeEvents and Close, Service/Feedback has
--   SubscribeFeedback, Service/New has NewClient, its options and NewSymmetricKey, Service/Sending the
--   whole SendEvent, and Service/Sending/Options what a list of options says of a message.
-- - Eventhub: eventhub/client.go. pack.ag/amqp and the random source are the argument Peer, over an
--   outer state `World`; Eventhub/Pump has SubscribePartitions with its goroutines and channels, and `refresh` has the goroutine of PutTokenContinuously, on its list of ticks.
-- - Act: blocks of calls that change an outer state and may fail or panic, deferred calls, and the
--   rules for what such blocks keep and return.
-- - Go/Decimal, Go/Url, Go/Query, Go/Path: what the code uses of strconv and net/url, as of Go 1.10. `digits`
--   runs on fuel n + 1 for the number n, which has no more digits than that.
-- - Base: shared types and lemmas. Text is a list of bytes; a Go map is the list of its entries.
--
-- The encoding/json codec is the argument Json, the time formats are the arguments format_time and
-- parse_time, and the validity of the authority part of a URL is the argument authority_ok.
--
-- Numbers are natural numbers; the request counter wraps at 2 ^ 32 as a uint32 does, and Atoi is
-- bounded by int64.
--
-- Receive blocks while there is no message. The loop of SubscribeFeedback is run over a number of calls
-- of Receive that return, and waits in the next one if none of them ended it. SubscribePartitions is run
-- on a course, what the goroutines of its receivers and its select do in turn, up to its return; a
-- goroutine closes its receiver only when its own Receive fails, and may hold a message that nobody
-- takes. Where a loop still waits, no deferred call around it has run.
--
-- Not modelled: logging, TLS, and the vendored libraries.
pub mod Base
pub mod Go
pub mod Sas
pub mod Device
pub mod Message
pub mod Mqtt
pub mod Amqp
pub mod Service
pub mod Creds
pub mod Act
pub mod Eventhub
pub mod Cli
pub mod Program
