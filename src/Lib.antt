-- ===== src/Lib.antt =====
-- stocker-informer: a service that publishes stock summaries on GoToSocial. A RabbitMQ queue brings
-- signals, each a protobuf that names a stock; the consumer reads the stock's Markdown summary from
-- an S3 bucket, may have it rewritten by a language model, publishes it, and then acknowledges the
-- signal. A probe checks the broker beside it, and turns /health from 503 to 200.
--
-- Parts and files
--   Config, with Env, Range, Recipient, Broker, Checks, Accepts and Load
--                              the settings and their loading (internal/config/config.go)
--   Store, with Prefix, Segments, Spelling, Key, Accepted, Folder, Miss,
--   Missed and Read
--                              the keys of summaries and their reading
--                              (internal/summarystore/store.go)
--   Session, with Laws         the owner of a connection, a channel and a stream of deliveries
--                              (internal/rabbitmq/session.go)
--   Session.Callers, with Finish, Invariant, Refines, Closing, Turns and Progress
--                              goroutines that call one session at the same time (the same file)
--   Dialer, with Deadline
--                              dialAMQP, dialProbeAMQP and the adapters of the AMQP client
--                              (internal/rabbitmq/session.go, internal/rabbitmq/probe.go)
--   Build                      the constructors of the parts, and sleepContext (the files of the parts)
--   Server, with Status, Exits, Source and Keys
--                              run and main, which put the parts together (cmd/server/main.go)
--   Backoff                    backoffDelay (internal/rabbitmq/consumer.go)
--   Consumer, with Publication, Settled, Handling and Settlement
--                              decodeStock, handleDelivery and settle (the same file)
--   Consumer.Loop              consume and drainDeliveries (the same file)
--   Consumer.Connect           connect (the same file)
--   Consumer.Supervisor        Run, the loop that connects, consumes and reconnects (the same file)
--   Consumer.Protocol, with Handled, Consumed and Followed
--                              an automaton of what Run may do with the broker (the same file)
--   Probe, with Phases, Readiness, Delays and Topology
--                              Run and checkTopology (internal/rabbitmq/probe.go)
--   Probe.Attempt, with Released
--                              Check, as the steps of its caller and its goroutine (the same file)
--   Attributes                 the attributes of log lines (internal/rabbitmq/consumer.go,
--                              internal/rabbitmq/probe.go)
--   Health                     the /health handler and its flag (cmd/server/main.go)
--   Publisher, with Form and Attempts
--                              the status form and the retries
--                              (internal/messenger/gotosocial_publisher.go)
--   Rewriter, with Outputs, Reports and Chosen
--                              the rewriter (internal/rewriter/ollama.go)
--   Base, Text, Int, Errors, Contexts, Effects
--                              what these share: numbers and lists, the functions of Go's package
--                              strings, 64-bit integers, errors as values, contexts, and the monad
--   Examples                   a world in which the parts run, and tests
--
-- How the code corresponds to the definitions
--   A method of a type becomes a function on the record of its fields, under its name in lower case
--   with underscores: (*Consumer).handleDelivery is `handle_delivery`. Where a method goes on after
--   the result of a call, what follows is a function of its own by the cases of that result, named
--   `after_…` for the call. Code that acts on the outside is a step on a world of any type `W`: it
--   yields a value, the next world and the list of what it did (`Out` of Effects). The list holds the
--   log lines with their level and message, and one event for each effect on the broker, the object
--   store, the rewriter, the publisher and the clock.
--
--   A string is the list of its runes (`Text`), where a byte that is not UTF-8 is the rune 0x110000
--   plus that byte. A number that the code keeps in an int and that only counts up from zero is a
--   natural number; other ints and durations are the signed numbers of Int, and a shift or a product
--   that can overflow wraps around at 64 bits. Durations are in nanoseconds; those of backoffDelay,
--   which are from one second to thirty, are natural numbers too, and the event of a wait holds a
--   negative duration as zero.
--
-- Parameters
--   What is not in this repository is a parameter: the environment and the parsers of URLs and of
--   floating-point numbers (`Library` of Config.Env), contexts (`Contexts`), proto.Unmarshal
--   (`Unmarshal`), the connection and the channel of the AMQP client (`Connection`, `Channel`,
--   `Deliveries`), the clock, the dialer of package net and DialConfig of the AMQP client (`Network`
--   of Dialer), GetObject of the S3 client (`Api`) and the AWS library that makes it (`Aws` of Build),
--   the HTTP client, the form encoding and the JSON codec (fields of `Publisher` and of the rewriter's
--   `Client`, and `Http` of Build), the timer of sleepContext (`Wait`), signals (`Platform` of
--   Server), the clock and the floating-point numbers of the rewriter, and the upper and the lower
--   case of runes outside ASCII (`CaseTable`, with what Unicode promises of them as fields). A receive
--   from the deliveries answers with a delivery, the end, or the other case of its select, so each
--   choice that Go's select may make is an answer that the parameter may give. The dialer and
--   sleepContext are fields of the consumer and of the probe, as in the source; Server fills them with
--   the production ones.
--
-- Concurrency
--   The other parts call a method of a session as one step, since its mutex makes it one.
--   Session.Callers does not take that for granted: there any number of callers take the mutex, test
--   the flag, use the channel and release the mutex in separate steps, in the order that a list of
--   turns gives, and Refines compares them with the one-step methods. Check of the probe runs a
--   goroutine beside its caller: Probe.Attempt gives the steps of both and of the attempt's context, in
--   any order, and the probe's Run takes Check as a field. The goroutines of the probe and of the HTTP
--   server that `run` starts are events in its trace, and their steps are not interleaved with those of
--   the consumer: the parts share no state but the readiness flag, which only the probe sets.
--
-- Loops and fuel
--   publish makes three attempts and takes no fuel. drainDeliveries, consume and the two Run loops
--   take fuel, a bound on the number of receives or rounds, and their results say whether they
--   returned before it ran out. The Run loops are made to run until they are cancelled, so their fuel
--   is any number. For consume and its drain, one receive for each delivery still to come and two more
--   are enough.
--
-- Not modelled
--   The logger, and which log line takes which attributes. The limits of the publisher's HTTP
--   transport. The log line of an HTTP server that fails to listen, and the text of the version
--   variables.
pub mod Base
pub mod Text
pub mod Int
pub mod Errors
pub mod Config
pub mod Contexts
pub mod Effects
pub mod Store
pub mod Session
pub mod Backoff
pub mod Consumer
pub mod Probe
pub mod Health
pub mod Publisher
pub mod Rewriter
pub mod Dialer
pub mod Build
pub mod Server
pub mod Attributes
mod Examples
