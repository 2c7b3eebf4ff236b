-- ===== src/Blockchain/Decoding/RoundTrip.antt =====
-- What the contract emits for a deposit is decoded.
use Prim.Native.Nat.{◌^◌, ◌/◌, ◌%◌}
use Prim.Native.String.{String}
use lumendark.Common.{
  ℕ, Option, List, ◌-◌, ◌≡◌, ap, some, [], ◌∷◌, ℤ, pos, negsuc, eq_of_parts, int_laws,
}
use lumendark.Common.Int.{*ℤ_parts}
use lumendark.Models.Order.{Asset}
use lumendark.Blockchain.Transaction.{ContractAsset, A, B}
use lumendark.Blockchain.Decoding.{
  ScVal, symbol, address, i128, vec, nil, cons, combine, decode_deposit_event,
}

-- The halves of an i128: the quotient by 2^64, rounded down, and the remainder.
unfoldable pub high : ℤ → ℤ
high (pos n) = pos (n / 2 ^ 64)
high (negsuc n) = negsuc (n / 2 ^ 64)

unfoldable pub low : ℤ → ℕ
low (pos n) = n % 2 ^ 64
low (negsuc n) = 2 ^ 64 - 1 - n % 2 ^ 64

combine-halves : (n : ℤ) → combine (high n) (low n) ≡ n
unfolding combine high low
combine-halves (pos n) =
    eq_of_parts _ _ (omega (int_laws, *ℤ_parts (pos (n / 2 ^ 64)) (pos (2 ^ 64))))
combine-halves (negsuc n) =
    eq_of_parts _ _ (omega (int_laws, *ℤ_parts (negsuc (n / 2 ^ 64)) (pos (2 ^ 64))))

-- What `emit_deposit` of contracts/orderbook/src/events.rs emits.
abbrev pub asset_of : ContractAsset → Asset
asset_of A = Asset.a
asset_of B = Asset.b

abbrev variant : ContractAsset → String
variant A = "A"
variant B = "B"

unfoldable pub emitted_topics : ℕ → List (Option ScVal)
emitted_topics user = some (symbol "deposit") ∷ some (address user) ∷ []

unfoldable pub emitted_value : ContractAsset → ℤ → Option ScVal
unfolding high low
emitted_value asset amount = some (
    vec
      (cons (vec (cons (symbol (variant asset)) nil)) (cons (i128 (high amount) (low amount)) nil)))

-- The event that the contract emits for a deposit, with the amount split into the halves of an
-- i128, is decoded to its user, asset and amount, for any integer amount.
pub decode_deposit_event-emitted :
    (user : ℕ) (asset : ContractAsset) (amount : ℤ)
    → decode_deposit_event (emitted_topics user) (emitted_value asset amount)
      ≡ some (record { user_address = user; asset = asset_of asset; amount = amount })
unfolding decode_deposit_event emitted_topics emitted_value
decode_deposit_event-emitted user A amount =
    ap (λ (n : ℤ). some (record { user_address = user; asset = Asset.a; amount = n }))
      (combine-halves amount)
decode_deposit_event-emitted user B amount =
    ap (λ (n : ℤ). some (record { user_address = user; asset = Asset.b; amount = n }))
      (combine-halves amount)
