-- ===== src/Lib.antt =====
-- A model of the RocketMQ C++ client: the queues of messages that a consumer holds, how queues are
-- shared among the consumers of a group, how far each is consumed, and how a producer sends.
--
-- The parts. A push consumer rebalances from time to time: the strategy allocates queues of a topic to
-- it, and the rebalancing brings its table of process queues in line, drops the queues that went to
-- others and starts to pull the new ones at an offset that it computes from the offset store. Pulled
-- messages, which the transport cuts from the bytes of a connection and hands to the callback of the
-- request that they answer, are decoded and go into the ProcessQueue of their queue; one of the two
-- services takes them out, shows them to the listener, and records in the offset store how far the
-- queue is consumed. A producer chooses one of a topic's queues for a message and tries other brokers
-- when a try fails.
--
-- The files, with the code that each is about:
--   Prelude, SortedMap: what the parts share, and `std::map` as an association list in key order
--   Message: include/MessageExt.h, include/MessageQueue.h, src/message/MessageQueue.cpp
--   Message/Properties: the text of properties in src/message/MessageDecoder.cpp
--   Message/Decoder: decode and decodes of the same file; Encode has the form in which a broker stores
--     a message, which is not part of the code
--   Message/MessageId: createMessageId and decodeMessageId of the same file
--   Common: src/common/MixAll.cpp, src/common/Validators.cpp, src/common/PullSysFlag.cpp
--   Consumer/ProcessQueue: src/consumer/ProcessQueue.cpp; the record has a field for each member, and
--     putMessage, removeMessage, takeMessags, commit, rollback, makeMessageToCosumeAgain, getMaxSpan
--     and isLockExpired are functions on it (names in snake_case, here as everywhere)
--   Consumer/Allocate: src/consumer/AllocateMessageQueueStrategyInner.h
--   Consumer/Offset: src/consumer/RemoteBrokerOffsetStore.cpp (Remote), LocalFileOffsetStore.cpp and
--     OffsetSerializeWrapper.cpp (Local)
--   Consumer/Rebalance: src/consumer/RebalanceImpl.cpp and RebalancePushImpl.cpp; the table of queues
--     holds addresses of process queues, and the offset store is an interface that the store of
--     Consumer/Offset fills
--   Consumer/Rebalance/Round: doRebalance and the subscriptions of src/consumer/RebalanceImpl.cpp
--   Consumer/Rebalance/Locks: lock, lockAll, unlock and unlockAll of src/consumer/RebalanceImpl.cpp, on
--     a function from addresses to process queues
--   Consumer/Pull: pullMessage and the callback of a pull in src/consumer/DefaultMQPushConsumerImpl.cpp,
--     and src/consumer/PullAPIWrapper.cpp; the state lists where a pull request may be
--   Consumer/Concurrently: src/consumer/ConsumeMessageConcurrentlyService.cpp, on the ProcessQueue and
--     the table of offsets
--   Consumer/Orderly: src/consumer/ConsumeMessageOrderlyService.cpp, on the same
--   Producer/Send: src/producer/TopicPublishInfo.h and the loop of src/producer/DefaultMQProducerImpl.cpp
--   Transport/TcpTransport: src/transport/TcpTransport.cpp, from the bytes received to messages
--   Transport/TcpRemotingClient: the table of requests in src/transport/TcpRemotingClient.cpp and
--     src/transport/ResponseFuture.cpp; an operation that touches a deleted object has no result
-- The modules below these prove; those called Tests run the code on concrete values.
--
-- Bounds and fuel. Offsets, counts and queue ids are integers without a bound, since they stay far
-- below 2^63; the casts of the source that do lose bits are written out (`to_int`, the unsigned
-- subtraction of isLockExpired). The loop of orderly consumption runs on fuel, and one round more than
-- the queue has messages is enough; submitConsumeRequest's runs on as much fuel as it has messages; the
-- loop of a send has its three rounds; ProcessData's and that of decodes need one round more than there
-- are messages. Machine integers of the wire are in Prelude/Words, with their wrap-around.
--
-- Interleavings. Each operation of a ProcessQueue holds its mutex while it works on the maps, so that an
-- execution is a sequence of operations; the flag that takeMessags clears after it has unlocked is a step of
-- its own (`after_unlock`), which `take_messags` follows where no other thread comes between; compareAndIncreaseOnly is modelled with the writes that others make between its steps.
-- What threads do to the table of requests is a relation, `Run`, whose steps come in any order; what is done
-- under m_mutexResp is a step, and so is what the sender does after it has unlocked, and each of the two things
-- that a pool thread then does with a response.
--
-- Not modelled: logging, hooks, statistics of time; sockets and protocol headers, the client factory and
-- the broker's side, whose answers are parameters; jsoncpp, spdlog and zlib; threads and timers, which
-- appear as the calls that are made; the table of connections and the pull consumer.
pub mod Prelude
pub mod SortedMap
pub mod Message
pub mod Common
pub mod Consumer
pub mod Producer
pub mod Transport
