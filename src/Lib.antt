-- ===== src/Lib.antt =====
-- A verification library for eventbook, which records the order books of prediction markets.
--
-- The program's parts. Wire texts become numbers in src/common (decimal.cpp, price.cpp, quantity.cpp,
-- time.cpp): scaled integers, never floating point. The venue's messages become the events of
-- include/eventbook/data/events.hpp. A book (src/book/order_book.cpp) takes snapshots and deltas and
-- either is valid, with a sequence number that runs without gaps, or holds nothing and awaits a
-- snapshot. The state of a market (src/book/market_state.cpp) owns a book, hands it the events, counts
-- them and measures how long the book was not valid. Before that, src/api/market.cpp reads the
-- metadata of the markets, with their price grids, and src/api/eligibility.cpp says which are studied.
-- src/api/market_query.cpp asks for those pages over src/api/rest_client.cpp. What the venue sends is
-- recorded by src/data/journal.cpp, a line of JSON to a record in rotating, compressed segments, and
-- src/replay/replay.cpp hands the records to the same parser and the same market state again.
--
-- Which file models which part:
-- - Prelude: shared names, byte texts, signed integers, and `Result` of include/eventbook/common/result.hpp.
-- - Decimal: src/common/decimal.cpp. Decimal.Spec describes decimal texts without the parser.
-- - Price, Quantity: the files of the same names in include/eventbook/common and src/common.
-- - Time: src/common/time.cpp and include/eventbook/common/time.hpp, but for printing. Time.Texts and
--   Time.Instant say what a text stands for, without the parser and its sums.
-- - Events: include/eventbook/common/identifiers.hpp and include/eventbook/data/events.hpp.
-- - OrderedMap: `std::map` under a comparator, as sorted entries.
-- - OrderBook: src/book/order_book.cpp. The two overloads of `apply` are `apply_snapshot` and
--   `apply_book_delta`; a method that changes the book returns the new book with the answer.
--   OrderBook.Refinement holds the abstract book, a size for each side and price, OrderBook.DigestText
--   the text of a book that is hashed.
-- - MarketState: src/book/market_state.cpp. The instant of an observation is an argument, as there.
-- - Json: what the source calls of nlohmann/json, as an interface; Json.Writer is the writing side.
-- - Market: src/api/market.cpp. A method of `FieldReader` takes and returns the error kept so far.
-- - WsProtocol: src/api/ws_protocol.cpp. WsProtocol.Messages has one function for each kind of message.
-- - Eligibility: src/api/eligibility.cpp.
-- - Journal: src/data/journal.cpp. Journal.Codec encodes and decodes, Journal.Writer is `JournalWriter`
--   with its world (files, clock) in its state, Journal.Lines and Journal.Reader are `JournalReader`.
--   Journal.Ledger and Journal.Stored describe where the lines given to a writer are.
-- - Replay: src/replay/replay.cpp, a fold over the records of the segments. An exception of the JSON
--   library is the value `thrown`.
-- - Rest: src/api/rest_client.cpp and include/eventbook/api/http.hpp.
-- - WsSession: src/api/ws_session.cpp. A handler returns the state with what it asks of the network, and
--   WsSession.Life.Signal lists what the network and the caller signal.
-- - MarketQuery: src/api/market_query.cpp. MarketQuery.Parameters reads a query as a server does.
-- The modules called Examples hold concrete inputs.
--
-- Numbers. Prices, sizes and instants are integers without bound, and the tests of the source
-- against the ends of `int32` and `int64` are written out. Sequence numbers, counters and
-- hashes are taken modulo 2 ^ 64. Loops are structural recursion, but for three.
-- `next_compressed_line` takes a turn for each call of zstd, of which there are no more than
-- bytes in the file and in its text, and two more are enough. `next` and `read_records` take
-- one for each line and one for the end. The loop over the pages takes `max_pages`, the bound
-- of the source itself.
--
-- Parameters. `fmt::format` is the record `Fmt`, with `FmtLaws` for what its documentation
-- says of unsigned numbers; the JSON library is the record `JsonLibrary` to read and
-- `JsonWriter` to write, with `JsonLaws` for what its documentation says of the two together;
-- `std::sort` is the record `StdSort`, of which one theorem assumes that it keeps the elements
-- of its range. `Platform` holds the file system and the clock of a writer. `BlockLog` says
-- what the calls do to three lists of blocks: those that the streams took, those that have
-- reached the files and those that are still buffered. A flush that succeeds sends on what is
-- buffered; of one that fails nothing is assumed, and what was buffered may be lost: the
-- program counts it as a write failure, not as dropped records. `Decompressor` is zstd's
-- stream. `StreamLaws` says what the reader relies on: a call takes part of its input and
-- hands out part of the text, at least a byte of either, and no text is left inside once all
-- bytes are taken, since the reader stops at the end of the file without asking for more. A
-- file that is cut off is read as what zstd gave for it. A corrupt one ends in the error of
-- zstd. `HttpTransport` is the network, and the session's signals are what Boost completes.
-- `std::to_string` is a function.
--
-- Not modelled: the HTTP transport, request signing and the trust store, which call Boost and
-- OpenSSL; the subscribe command's text; the applications; the build's version; the printing
-- of instants, and with it the stamp in a segment's name; and the texts that `to_string` gives
-- for reports.
pub mod Prelude
pub mod Decimal
pub mod Price
pub mod Quantity
pub mod Events
pub mod OrderedMap
pub mod OrderBook
pub mod MarketState
pub mod Time
pub mod Json
pub mod Market
pub mod WsProtocol
pub mod Eligibility
pub mod Journal
pub mod MarketQuery
pub mod Replay
pub mod Rest
pub mod WsSession
