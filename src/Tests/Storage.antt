-- ===== src/Tests/Storage.antt =====
-- apps/api/src/storage and the reading of a blob, on concrete rows.
use ddrive.Prelude.{
  ℕ, ◌+◌, ◌≡◌, refl, inl, ◌⊎◌, ◌≢◌, [], ◌∷◌, map, length, String, All, ◌==◌, true, false,
}
use ddrive.Prelude.{filter}
use ddrive.Prelude.Sort.{sort_by}
use ddrive.Processing.Chunker.{Bytes}
use ddrive.Storage.Rows.{local, discord, replica, active, modified, ok, err}
use ddrive.Storage.Provider.{order_placements_for_read}
use mathlib.Core.List.{Perm}
use ddrive.Storage.Provider.{rank}
use ddrive.Storage.Provider.Order.{serves, Serves, InOrder, order_placements_for_read-InOrder}
use ddrive.Storage.ServerCrypto.{
  encrypt_server_side, decrypt_server_side, get_key, plaintext_size_for,
}
use ddrive.Storage.ServerCrypto.RoundTrip.{decrypt-encrypt_server_side}
use ddrive.Handlers.Reading.{fetch, read_blob_bytes, looks_like_missing}
use ddrive.Handlers.Reading.Outcome.{
  FirstOf, Fails, read_blob_bytes-outcome, read_blob_bytes-available,
}
use ddrive.Tests.Fixtures.{toy, toy-laws, iv, sealed, transport, placement, rows, half_lost}

read_order : map (λ r. r.id) (order_placements_for_read rows) ≡ "d" ∷ "b" ∷ "a" ∷ []
unfolding order_placements_for_read filter sort_by
read_order = refl

lost_message : looks_like_missing "HTTP 404" ≡ true
unfolding looks_like_missing
lost_message = refl

other_message : looks_like_missing "timeout" ≡ false
unfolding looks_like_missing
other_message = refl

-- The copy on Discord is recorded as lost, and the one on disk is served.
read_past_lost :
    (read_blob_bytes half_lost 5 (transport "f1:chunk:0" 31) rows rows).0
    ≡ ok (sealed (1 ∷ 2 ∷ 3 ∷ []))
unfolding read_blob_bytes order_placements_for_read filter sort_by
read_past_lost = refl

sealed_three : encrypt_server_side toy "k" iv (1 ∷ 2 ∷ 3 ∷ []) ≡ ok (sealed (1 ∷ 2 ∷ 3 ∷ []))
unfolding encrypt_server_side get_key
sealed_three = refl

decrypt-encrypt_server_side_example :
    (decrypt_server_side toy "k" (sealed (1 ∷ 2 ∷ 3 ∷ [])) ≡ ok (1 ∷ 2 ∷ 3 ∷ []))
    × (length (sealed (1 ∷ 2 ∷ 3 ∷ [])) ≡ 3 + 28)
    × (plaintext_size_for (length (sealed (1 ∷ 2 ∷ 3 ∷ []))) ≡ 3)
decrypt-encrypt_server_side_example =
    decrypt-encrypt_server_side toy toy-laws "k" iv (1 ∷ 2 ∷ 3 ∷ []) (sealed (1 ∷ 2 ∷ 3 ∷ [])) refl
      sealed_three

candidates_left : order_placements_for_read rows ≢ []
unfolding order_placements_for_read filter sort_by
candidates_left e = cc

read_blob_bytes-outcome_example :
    ((bytes : Bytes) × ((read_blob_bytes half_lost 5 (transport "f1:chunk:0" 31) rows rows).0
        ≡ ok bytes)
      × FirstOf half_lost 5 (transport "f1:chunk:0" 31) (order_placements_for_read rows) bytes)
    ⊎ (((e : String) × ((read_blob_bytes half_lost 5 (transport "f1:chunk:0" 31) rows rows).0
            ≡ err e))
        × All (Fails half_lost 5 (transport "f1:chunk:0" 31)) (order_placements_for_read rows))
read_blob_bytes-outcome_example =
    read_blob_bytes-outcome half_lost 5 (transport "f1:chunk:0" 31) rows rows candidates_left

disk_delivers :
    fetch half_lost 5 "f1:chunk:0" "u1" (placement "b" local replica active)
    ≡ ok (sealed (1 ∷ 2 ∷ 3 ∷ []))
unfolding fetch
disk_delivers = refl

read_blob_bytes-available_example :
    (got : Bytes) × ((read_blob_bytes half_lost 5 (transport "f1:chunk:0" 31) rows rows).0 ≡ ok got)
read_blob_bytes-available_example =
    read_blob_bytes-available half_lost 5 (transport "f1:chunk:0" 31)
      (placement "a" discord replica modified ∷ []) _ (placement "b" local replica active) rows
      (sealed (1 ∷ 2 ∷ 3 ∷ [])) (inl refl) disk_delivers

order_placements_for_read-InOrder_example :
    Perm (order_placements_for_read rows) (filter serves rows)
    × All Serves (order_placements_for_read rows)
    × InOrder (order_placements_for_read rows)
    × ((n : ℕ)
        → filter (λ r. rank r == n) (order_placements_for_read rows)
          ≡ filter (λ r. rank r == n) (filter serves rows))
order_placements_for_read-InOrder_example = order_placements_for_read-InOrder rows
