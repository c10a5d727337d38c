-- ===== src/Lib.antt =====
-- DEADWEIGHT: the game engine of the repository, a card game for two seats with simultaneous locks.
-- The engine's rules are pure functions over one state, so the model is their translation; the server is a
-- function on its tables for each thing that may happen to it.
--
-- Parts, and where they are:
--   core/card_rules.c   the catalog and the rules of play.  Cards: `Cards/Catalog` has the catalog,
--                       `Cost`, `Power`, `EffectA` and `EffectB` its tables as lists of pairs,
--                       `Digits` the packed digits, `Rules` the rules, `Effects` the effect words.
--   core/match.c, .h    the match.  Match: `State` has `DwMatch` as a pair of seat records, `Piles`
--                       the shuffle and the draw and discard piles, `Setup` dw_match_init_decks,
--                       dw_match_begin_round, dw_match_lock and dw_match_forfeit. The steps of
--                       dw_match_resolve are, in its order: `Exchange` (costs, cancel and copy, the
--                       riders of the exchange), `Riders` (attack, the sums of the second riders,
--                       direct damage), `Gains` (meters, burn and regeneration), `Hands` (refill,
--                       redraw, swap, discard and lock) and `Resolve` (their composition, the end of
--                       the match and the outcome). `Views` has dw_match_view and
--                       dw_match_post_view.
--   core/draft.c, .h    decks.  Draft: `Building` has the draft by picks, `Checking` the legality
--                       check, `Dealing` the random deck and the parser.
--   core/policy.c, .h   the bots' hand-written policies.  Bots: `Policy` has the choice of a slot,
--                       `Picking` bot_draft_pick of core/client.c.
--   core/protocol.c, .h the messages.  Wire: `Message` has `DwMsg`, `Writer` and `Encode` dw_encode, `Reader` and
--                       `Decode` dw_decode.
--   apps/server/main.c  the match server.  Server: `State` has `Conn`, `Match` and the globals, `Sending` send_msg
--                       and flush_conn, `Ending` end_match, resolve_round, leave_match_or_queue and conn_close,
--                       `Pairing` start_match and the searches in the queue, `Queue` the loops that pair,
--                       `Sessions` the steps of a session, `Handling` draft_pick and handle_msg, `Ticking`
--                       expire_timers, accept_conns and the answers of the account service.
-- The match reads the catalog for costs, kinds and effect words; it is set up with decks that a
-- draft or a random deal has made. The server sets matches up, locks what a PLAY message says, resolves rounds and
-- encodes what the seats see. The pairs of seats of a match, each with its record, stand for
-- the C arrays over the seat index.
--
-- How the proofs are laid out:
--   Match/Kept          what a step on the meters may do to a seat, as a record of laws, with the
--                       lifting to whole rounds; a property of seats fills it in.
--   Match/Bounds        the ranges of the meters fill it in.
--   Match/Census        so does the fact that meters move no card; then the piles and hands.
--   Match/Reach         the states that setup, locks and rounds lead to, as a relation.
--   Match/Views/Hidden  what a view gives away.
--   Draft/Shape         the abstract rule for decks, by counting.
--   Draft/Filling, Sorting, Legal   the check against the rule.
--   Draft/Random, Drafted   the two makers of decks.
--   Bots/Accepted, Best, Picking   the choices of the policies and picks against the match's and
--                       the draft's rules.
--   Wire/Payload, Frame the bytes of a message; Reads, RoundTrip what the decoder makes of them.
--   Wire/Stays, InFrame rules for readers that stay within a number of bytes; Stream the decoder on pieces.
--   Server/Sound        the agreement of the two tables, for any condition on matches and connections, kept by the
--                       end (Ends) and the start (Starts) of a match; Fair has the conditions, Rounds the end of a round.
--   Server/Starting, Meeting, Pairs   the pairing; Settling, Waiting that its loops end, and who is left; Handled, Entering, Messages, Closing, Timing, Rating
--                       the handlers; Forfeits, Passing, Expiring what becomes of a match whose player leaves or whose time is up,
--                       Marked, Refusing of a connection that is not let in in time.
--   Server/Run          everything that may happen to the server, in any order, as a relation.
--   Tests modules apply the theorems to concrete matches, cards and drafts.
--
-- Numbers: an unsigned field is a natural number and a signed one an integer, with the casts of the
-- source (`u8`, `i8`, and the 32-bit remainder in `xs`) written out. The local `int` sums of a round
-- are unbounded integers here. The seats' slots, picks and multiplicities come from bytes of a
-- message; a pick's index and multiplicity are natural numbers, as the server reads them.
-- The server's counters of 32 bits wrap; its clock and its sockets are functions of the number of calls so far.
-- Loops are structural, but for the rejection loop of `make_offer`, which in C has no bound: it has fuel here, and
-- `endless` (or `none`) is the result of running out. No theorem assumes that fuel suffices; each holds for every
-- amount. The loop of flush_conn has as many rounds as there are bytes, each but the last takes one off. The loops of
-- the pairing have as many rounds as connections; Server/Settling shows that this is enough.
--
-- Not modelled: the bots' brains and the policy that asks at the terminal, the rest of the client driver, the server's
-- reading of bytes into a buffer, its log files, its thread for the account service, its command line and its shutdown,
-- the account service itself, and all front ends. A null or dangling pointer, and a slot or seat out of the range that
-- the guards admit, has no counterpart: a read past a list gives the empty card. Of the union in `DwMsg` only the
-- member of the message's type is there.
pub mod Prelude
pub mod Cards
pub mod Match
pub mod Draft
pub mod Wire
pub mod Bots
pub mod Server
