-- ===== src/Lib.antt =====
-- Verification of Galculus, a runtime for agents that exchange messages and ask language models
-- under token and memory budgets.
--
-- The program's parts and how they interact. An agent runtime (core/src/runtime.cpp) owns agents
-- and takes messages from a transport. A transport is a queue in memory, or a framed transport
-- that turns each message into a packet (core/src/protocol.cpp) in a frame (core/src/frame.cpp)
-- on a byte transport. A memory manager (memory/src/MemoryManager.cpp) owns two arenas, a block
-- pool and a budget for each agent. A model is an interface (llm/); one wrapper puts a token
-- scheduler in front of it (llm_scheduled/, scheduler/), another a memory reservation
-- (llm_memory/). A remote model (llm_remote/) sends each prompt as a message (llm_bridge/) over a
-- TCP connection (core/src/tcp_byte_transport.cpp) to a server (examples/llm_nodes/), which asks
-- its own model (llm/src/MockLLM.cpp). The agent of examples/tool_agent_demo/ turns an answer into
-- a call of a tool, under a safety policy (tools/).
--
-- The files:
--   Common/          tests on numbers and byte strings, lists measured by native numbers, bit
--                    operations as arithmetic, dictionaries with string keys, exceptions
--   Core/Message     core/include/galculus/core: result.hpp, event.hpp and message.hpp
--   Core/Flow        a function body with early returns
--   Core/Wire        write_u16, write_u32, write_u64, write_string, write_bytes and their readers
--   Core/Protocol    Protocol::encode and Protocol::decode
--   Core/Frame       Frame::encode and Frame::decode, with the checksum
--   Core/Transport   InMemoryTransport, InMemoryByteTransport, MessageByteAdapter and
--                    FramedMessageTransport; Fifo is the contract of a queue as an interface
--   Core/Tcp         TcpByteTransport, over the calls of Winsock; Streams and Handles hold what
--                    those calls are relied on for
--   Core/Runtime     AgentRuntime, over any transport and any class of agents
--   Memory/Words     64-bit words, MemoryBlock and MemoryStats
--   Memory/Arena     MemoryArena, and with it ScratchBuffer, which passes its calls on
--   Memory/Pool      FixedBlockPool
--   Memory/Budget    AgentMemoryBudget
--   Memory/Manager   MemoryManager and ScopedMemoryReservation
--   Scheduler        TokenScheduler
--   Llm              Prompt, LLMResult, GenerationConfig and the interface LLMRuntime
--   Llm/Scheduled    ScheduledLLMRuntime
--   Llm/Budgeted     MemoryAwareLLMRuntime
--   Llm/Mock         MockLLM
--   Llm/Remote       RemoteLLM
--   Bridge           LLMMessageCodec, LLMRequest and LLMResponse
--   Tools            SafetyPolicy, ToolCallParser and ToolRegistry
--   Nodes            main of examples/llm_nodes/llm_server.cpp and of
--                    examples/tool_agent_demo/tool_agent_client.cpp; Replies, Serving, Asking and
--                    Deciding put the two together; Client is examples/llm_nodes/llm_client.cpp, Pair is
--                    examples/tcp_nodes/, Demos are examples/hello_agent/, remote_llm_client/ and
--                    scheduled_llm_demo/
--   Tests/           concrete runs
--
-- State is passed on explicitly: a method that changes its object returns the new object first,
-- beside its result. The names of the definitions are the source's. A `std::string` and a vector
-- of bytes are lists of numbers, an `unordered_map` is an association list in the order in which
-- the loops meet it, an enum that the code casts from a byte is a number, a `float` is its bits.
--
-- Bounds and fuel: `std::size_t` and addresses have 64 bits, the fields of a packet and the tokens
-- have 32, and every sum wraps where the source's does; a statement that needs a sum not to wrap
-- says so. `drain` runs on fuel, since a transport may never be empty; over a transport that keeps
-- the contract of a queue, one more than the messages under way is enough.
-- The loops of the TCP transport run as often as there are bytes, and the word count as often as
-- the text has bytes; each round takes one at least.
--
-- Parameters: the calls of Winsock are a record of functions on a state of theirs, `std::stod` and
-- `double` a function and a type, the steady clock a state with a reading. A statement that relies
-- on the sockets takes what Winsock documents as an interface, which Tests/Network fills.
--
-- Not modelled: the console output, but for what the tools of the demo do and the messages, results
-- and log lines that the examples print; the tests. WSAStartup and the byte order of a port are left
-- out. The callbacks of an agent change that agent alone: an agent that calls back into its runtime
-- is outside the model. The mutexes of the in-memory queues make each call one step. Allocation of
-- the vectors does not fail, and their addresses are arguments. A model may throw, and the wrappers
-- pass its exception on; the callbacks of agents and the handlers of tools do not throw.
pub mod Common
pub mod Core
pub mod Memory
pub mod Scheduler
pub mod Llm
pub mod Bridge
pub mod Tools
pub mod Nodes
pub mod Tests
