-- ===== src/Examples/MarketCases.antt =====
-- The theorems on src/trading/market_data/live.py at concrete inputs.
use claude_trade_teams.Base.{ℕ, ◌+◌, refl, map, ◌≡◌, true, false, none, some, List, [], ◌∷◌}
use claude_trade_teams.Base.Decimal.{pos}
use claude_trade_teams.Market.Book.{BookMessage, new, apply, to_snapshot, replay}
use claude_trade_teams.Market.Replay.{
  IsFalling, IsRising, size_at, told, to_snapshot-ordered, to_snapshot-told,
}
use claude_trade_teams.Bybit.Wire.{to_datetime, epoch}
use claude_trade_teams.Market.Live.{LiveSource, Callback, start, book, on_orderbook}
use claude_trade_teams.Market.Live
use claude_trade_teams.Market.Live.Books.{Received, receive, of_symbol, on_orderbook-receive}

abbrev messages : List BookMessage
messages =
    record {
      is_snapshot = true;
      update_id = some 1;
      bid_levels = (98, pos 4) ∷ (99, pos 2) ∷ [];
      ask_levels = (101, pos 3) ∷ (103, pos 1) ∷ [];
    }
    ∷ record {
      is_snapshot = false;
      update_id = some 2;
      bid_levels = (99, pos 0) ∷ [];
      ask_levels = (102, pos 5) ∷ (101, pos 6) ∷ [];
    }
    ∷ []

to_snapshot-ordered_example :
    IsFalling (to_snapshot 100 (replay messages (new 7))).bids
    × IsRising (to_snapshot 100 (replay messages (new 7))).asks
to_snapshot-ordered_example = to_snapshot-ordered 7 messages 100

to_snapshot-told_example :
    (size_at 99 (to_snapshot 100 (replay messages (new 7))).bids
      ≡ told (λ m. m.bid_levels) 99 none messages)
    × (size_at 99 (to_snapshot 100 (replay messages (new 7))).asks
        ≡ told (λ m. m.ask_levels) 99 none messages)
to_snapshot-told_example = to_snapshot-told 7 messages 100 99

-- a source with two subscribers of one symbol
abbrev a_source : LiveSource
a_source = record (Live.new 50) { ob_subs = (7, 1 ∷ 2 ∷ []) ∷ (8, 3 ∷ []) ∷ [] }

abbrev a_delta : ℕ → BookMessage
a_delta id = record {
  is_snapshot = false;
  update_id = some id;
  bid_levels = (98, pos id) ∷ [];
  ask_levels = [];
}

-- the second message carries no time
abbrev received : List Received
received = (7, a_delta 4, some 1000) ∷ (8, a_delta 5, none) ∷ []

on_orderbook-receive_example :
    (on_orderbook 7 (a_delta 6) (some 1001) (receive received (start a_source).1)).calls
    ≡ map
        (λ c. (
          c,
          book (
              to_snapshot
                (epoch + 1001000)
                (apply (a_delta 6) (replay (of_symbol 7 received) (new 7)))),
        ))
        (1 ∷ 2 ∷ [])
unfolding to_datetime
on_orderbook-receive_example =
    on_orderbook-receive a_source received 7 (1 ∷ 2 ∷ []) (a_delta 6) (some 1001) (epoch + 1001000)
      refl refl
