-- ===== src/Lib.antt =====
-- The futures matching engine of viabtc-future (matchengine/src), over the containers, the byte
-- packing and the packets of utils/src, with the buffers and the stream sessions of network/src and
-- the candlesticks of marketprice/src.
--
-- The engine keeps balances, positions and, for each market, an order book. A request to open or
-- close a position is checked, its margin or its part of the position is frozen, and it is matched
-- against the other side of the book; each deal adjusts the two orders, their positions and their
-- balances, and what is left of a limit order is put in the book.
--
-- - Prelude: Boolean tests, lists, and integers over native numbers, and the laws of
--   exclusive or.
-- - Decimal: libmpdec, which the sources only call, as a parameter. A decimal128 number is an
--   integer, the multiple of the least quantum; rounding, product, quotient and rescaling are
--   fields of `Decimal`. `RoundsDown` and `SignBlind` state what the code relies on: rounding toward
--   zero (utils/src/ut_decimal.c sets MPD_ROUND_DOWN), which keeps signs and treats both alike.
-- - Dict: what the engine uses of utils/src/ut_dict.c, as association lists. Dict.Table has the hash
--   table itself, with its chains, its growth and `dict_mark_clear`; the hash function is a
--   parameter. Dict.Table.Powers is about the sizes and Dict.Table.Grow about growing;
--   Dict.Table.Refines, Replaces and Removes compare the table with the association list. The loop of
--   `dict_next_power` runs on fuel: 30 rounds reach the largest 32-bit power of two. Dict.Table.Iterate
--   has the iterator and `dict_clear`, whose loop runs on fuel: one round for each entry and one more
--   are the fuel, which Dict.Table.Iterate.Clears is about.
-- - Skiplist: utils/src/ut_skiplist.c on its bottom level. The random upper levels are not modelled.
-- - Balance: matchengine/src/me_balance.c, each operation with its early returns.
--   Balance.Invariant has the invariant, Balance.Moves what freezing moves, Balance.Status the
--   sums of `balance_status`.
-- - Market.Defs: the structs of matchengine/inc/me_market.h, me_position.h and me_deal.h, and the
--   global state of the engine as one record.
-- - Market.Book: the comparison of orders, `order_put_future` and `order_finish_future` of
--   matchengine/src/me_market.c.
-- - Market.Pnl: the lookups of matchengine/src/me_position.c, and `getPNL`, `getPartPNL`, the sums
--   over cross-margin positions and `checkPriAndFee` of me_market.c.
-- - Market.Deal: `adjustOrder`, `adjustPosition`, `adjustBalance` and `execute_order_open_imp`.
-- - Market.Match: `execute_order` and `market_cancel_order`.
-- - Market.Put: `initOrder`, `market_put_order_open` and `market_put_order_close`.
-- - Market.Planner: the waiting orders of matchengine/src/me_planner.c, for one market.
-- - Market.Liquidation: `isolated_liquidation` of matchengine/src/me_liquidation.c, and of
--   `cross_liquidation` the condition and the loop that cancels. That loop runs on fuel, since it
--   starts again after each order; Market.Liquidation.Ends is about the fuel it needs, and
--   Market.Liquidation.Stuck about an order that it cannot cancel. Market.Liquidation.Forced has the
--   rest of `cross_liquidation` and `force_liquidation`, whose rounds run on fuel too; no fuel is
--   enough for the state of Market.Liquidation.Forced.Unfilled. The state holds one market, and what
--   needs the book of another, a position of another market included, has the outcome `elsewhere`.
-- - Market.Requests: `market_put_order_common`, with the planner and the liquidation behind it.
-- - Pack: utils/src/ut_pack.c, integers, strings and script pushes as bytes.
-- - Buffer: network/src/nw_buf.c, the queue of bytes that a connection has to send. The loop of
--   `nw_buf_list_write` runs on fuel, since with buffers of size 0 it would not end; the number of
--   bytes is enough.
-- - Crc32: utils/src/ut_crc32.c. Crc32.Serial compares its table with a shifted register, and
--   Crc32.Detects is about what the checksum detects.
-- - Rpc: utils/src/ut_rpc.c, and how `on_recv_pkg` of ut_rpc_svr.c reads a packet.
-- - Session: network/src/nw_ses.c, how a stream session reads packets. What the socket answers and the
--   decoder are arguments. The loop over the packets in the buffer runs on fuel: one more than the
--   bytes in the buffer, since a packet has at least one. Session.Cuts and Session.Reads are about any
--   decoder, and Session.Packets about that of ut_rpc.c. Session.Sends has the sending side, with the
--   bytes that wait in the buffers.
-- - Pending: network/src/nw_state.c, the requests that wait for an answer. The loop of
--   `get_available_id` runs on fuel: 2 ^ 32 rounds try every id, which Pending.Ids is about.
--   Pending.Grow has the invariant, Pending.Adds and Pending.Dels the operations.
-- - Kline: marketprice/src/mp_kline.c without its JSON.
-- - Tests: concrete inputs, runs of the engine, and the theorems applied to them.
--
-- Every function runs on the whole state and returns it, with `none`, `false` or a code for the
-- early returns; what is pushed to the message queue or appended to the history is a list of
-- events in the order of the calls. The loops are structural: `execute_order` runs over the orders
-- that the book holds when it starts. Ids of users, assets and markets are numbers, since the code
-- only compares them; the counters of ids wrap at their width. The failure of `malloc` is left out. A read
-- through NULL is an outcome in `market_put_order_open` alone; in a deal and in a cancellation, where
-- the code would crash, the model goes on without the write, as the comments there say.
--
-- Not modelled: the spot orders of me_market.c, whose books have no defined order since
-- `market_put_limit_order` leaves `oper_type` unset, the markets beside the one that a call works
-- on, the requests' JSON, persistence, the servers around the engine, and of their network code what
-- the buffers, the packets and the stream sessions do not show.
pub mod Prelude
pub mod Decimal
pub mod Dict
pub mod Balance
pub mod Skiplist
pub mod Market
pub mod Pack
pub mod Crc32
pub mod Rpc
pub mod Session
pub mod Pending
pub mod Buffer
pub mod Kline
pub mod Tests
