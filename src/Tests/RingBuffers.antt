-- ===== src/Tests/RingBuffers.antt =====
-- The ring buffer at small inputs.
use dozzle_gaia_fork.Common.{ℕ, ◌≡◌, refl, none, some, [], ◌∷◌, arith}
use dozzle_gaia_fork.Utils.RingBuffer.{
  RingBuffer, new_ring_buffer, ring_buffer_from, push, len, contents,
}
use dozzle_gaia_fork.Utils.RingBuffer.History.{
  push_all, push_all-new_ring_buffer, Tracks, ring_buffer_from-Tracks,
}

-- The repository's own test, `TestRingBuffer`.
overwritten :
    push_all {A = ℕ} (new_ring_buffer 3) (1 ∷ 2 ∷ 3 ∷ 4 ∷ [])
    ≡ some (record { size = 3; items = 4 ∷ 2 ∷ 3 ∷ []; start = 1 })
unfolding push_all push new_ring_buffer
overwritten = refl

oldest_first :
    contents {A = ℕ} (record { size = 3; items = 4 ∷ 2 ∷ 3 ∷ []; start = 1 }) ≡ 2 ∷ 3 ∷ 4 ∷ []
unfolding contents
oldest_first = refl

push_of_empty : push (new_ring_buffer {A = ℕ} 0) 1 ≡ none
unfolding push new_ring_buffer
push_of_empty = refl

push_all-new_ring_buffer_example :
    (r : RingBuffer ℕ) × (push_all (new_ring_buffer 3) (1 ∷ 2 ∷ 3 ∷ 4 ∷ []) ≡ some r)
    × (contents r ≡ 2 ∷ 3 ∷ 4 ∷ [])
    × (len r ≡ 3)
push_all-new_ring_buffer_example = push_all-new_ring_buffer 3 (1 ∷ 2 ∷ 3 ∷ 4 ∷ []) (omega arith)

ring_buffer_from-Tracks_example :
    Tracks {A = ℕ} 2 (ring_buffer_from 2 (1 ∷ 2 ∷ 3 ∷ [])) (1 ∷ 2 ∷ 3 ∷ [])
ring_buffer_from-Tracks_example = ring_buffer_from-Tracks 2 (1 ∷ 2 ∷ 3 ∷ []) (omega arith)
