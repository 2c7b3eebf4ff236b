-- ===== src/Tests/Requests.antt =====
-- The theorems on the routes, at a sample server.
use lumendark.Common.{◌≡◌, true, false, some, none, [], pos, ok, is_some}
use lumendark.Models.Order.{Asset, parse_side}
use lumendark.Models.Message.{Payload, decimal, finite}
use lumendark.Storage.UserStore.Holdings.{holding}
use lumendark.Api.Routes.{Server, OrderRequest, submit_order, cancel_order, get_user_balance}
use lumendark.Api.Routes.Replies.{
  Submitted, submit_order-Submitted, cancel_order-Submitted, get_user_balance-holding,
}
use lumendark.Tests.{resting_state}

abbrev pub server : Server
server = record { messages = []; queue = []; next = 20; now = 9 }

abbrev order : OrderRequest
order = record {
  side = "buy";
  price = decimal (finite (pos 5));
  quantity = decimal (finite (pos 3));
}

submit_order-Submitted_example :
    (is_some (parse_side "buy") ≡ true
      → Submitted server 2
          (Payload.order "buy" (decimal (finite (pos 5))) (decimal (finite (pos 3))))
          (submit_order order 2 server))
    × (is_some (parse_side "buy") ≡ false → submit_order order 2 server ≡ (none, server))
submit_order-Submitted_example = submit_order-Submitted server 2 order

cancel_order-Submitted_example :
    Submitted server 1
      (Payload.cancel (some 0))
      (cancel_order (record { order_id = some 0 }) 1 server)
cancel_order-Submitted_example = cancel_order-Submitted server 1 (record { order_id = some 0 })

get_user_balance-holding_example : get_user_balance 1 resting_state.users ≡ record {
  user_address = 1;
  asset_a_available = ok (holding resting_state.users 1 Asset.a).available;
  asset_a_liabilities = ok (holding resting_state.users 1 Asset.a).liabilities;
  asset_b_available = ok (holding resting_state.users 1 Asset.b).available;
  asset_b_liabilities = ok (holding resting_state.users 1 Asset.b).liabilities;
}
get_user_balance-holding_example = get_user_balance-holding resting_state.users 1
