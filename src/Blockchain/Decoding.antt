-- ===== src/Blockchain/Decoding.antt =====
-- backend/lumendark/blockchain/event_listener.py, `decode_deposit_event`, on the values that the SDK has
-- read from XDR: `none` where it raised, which the function catches.
pub mod RoundTrip
use Prim.Native.Nat.{◌^◌}
use Prim.Native.String.{String}
use text.Mathlib.Text.{◌==◌ as str_eq}
use lumendark.Common.{
  ℕ, Option, none, some, List, [], ◌∷◌, Bool, true, false, ◌||◌, if◌then◌else◌, ℤ, pos, ◌+ℤ◌, ◌*ℤ◌,
}
use lumendark.Models.Order.{Asset}

-- A value by its type, with what the code reads of it.
mutual
  pub data ScVal : Type 0 where
    symbol : String → ScVal
    address : ℕ → ScVal
    i128 : ℤ → ℕ → ScVal
    vec : ScVals → ScVal
    other : ScVal

  pub data ScVals : Type 0 where
    nil : ScVals
    cons : ScVal → ScVals → ScVals

pub record DepositData : Type 0 where
  pub user_address : ℕ
  pub asset : Asset
  pub amount : ℤ

-- `(hi << 64) | lo`, where `lo` has 64 bits and those of `hi << 64` are zero
unfoldable pub combine : ℤ → ℕ → ℤ
combine hi lo = hi *ℤ pos (2 ^ 64) +ℤ pos lo

-- `.lower()` of the symbol as an asset; nothing reads the case of another text.
unfoldable pub asset_of_symbol : String → Asset
asset_of_symbol text =
    if str_eq text "a" || str_eq text "A"
    then Asset.a
    else if str_eq text "b" || str_eq text "B"
    then Asset.b
    else Asset.other text

unfoldable pub decode_asset : ScVal → Option Asset
unfolding asset_of_symbol
decode_asset (vec (cons (symbol text) items)) = some (asset_of_symbol text)
decode_asset _ = none

unfoldable pub decode_amount : ScVal → Option ℤ
unfolding combine
decode_amount (i128 hi lo) = some (combine hi lo)
decode_amount _ = none

abbrev pub deposit_data : ℕ → Option Asset → Option ℤ → Option DepositData
deposit_data user_address (some asset) (some amount) =
    some (record { user_address = user_address; asset = asset; amount = amount })
deposit_data _ _ _ = none

unfoldable pub decode_value : ℕ → Option ScVal → Option DepositData
unfolding decode_asset decode_amount
decode_value user_address (some (vec (cons asset_val (cons amount_val items)))) =
    deposit_data user_address (decode_asset asset_val) (decode_amount amount_val)
decode_value user_address _ = none

-- The event's topics and its value.
unfoldable pub decode_deposit_event : List (Option ScVal) → Option ScVal → Option DepositData
unfolding decode_value
decode_deposit_event (some (symbol text) ∷ some (address user_address) ∷ topics) value =
    if str_eq text "deposit" then decode_value user_address value else none
decode_deposit_event _ _ = none
