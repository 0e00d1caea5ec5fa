-- ===== src/Utils/RingBuffer/History.antt =====
-- internal/utils/ring_buffer.go over a whole history of calls of `Push`.
use dozzle_gaia_fork.Common.{
  ℕ, suc, ◌-◌, ◌≤◌, ◌<◌, min, ◌≡◌, refl, sym, ap, ◌∙◌, Option, none, some, List, [], ◌∷◌, ◌++◌,
  append_assoc, append-nil, length, arith, length-append, length-drop, drop-append_le,
}
use dozzle_gaia_fork.Utils.RingBuffer.{
  RingBuffer, new_ring_buffer, ring_buffer_from, push, len, clear, contents,
}
use dozzle_gaia_fork.Utils.RingBuffer.Laws.{
  IsValid, last, drop_one-drop, last-append_full, push_lem, length-contents, contents_filling,
}
use native.Mathlib.Decide.{dec_lt}

module _ {ℓ} {A : Type ℓ} where
  -- A client that pushes a list of elements, in order; `none` is a panic.
  unfoldable pub push_all : RingBuffer A → List A → Option (RingBuffer A)
  push_all r [] = some r
  push_all r (x ∷ xs) = elim (push r x) [ none ↦ none | some r' ↦ push_all r' xs ]

  last-last-append :
      (n : ℕ) (h : List A) (x : A) → 0 < n → last n (last n h ++ (x ∷ [])) ≡ last n (h ++ (x ∷ []))
  last-last-append n h x p = elim (dec_lt n (length h)) [
    | yes over ↦
        let k = length h - n in
        let e : length (h ++ (x ∷ [])) - n ≡ suc k = omega (arith, length-append h (x ∷ [])) in
        last-append_full n (last n h) x p (omega (arith, length-drop k h))
        ∙ ap (λ l. l ++ (x ∷ [])) (drop_one-drop k h)
        ∙ sym (rw e (drop-append_le (suc k) h (x ∷ []) (omega arith)))
    | no fits ↦ let e : length h - n ≡ 0 = omega arith in rw e refl
  ]

  -- A buffer that shows the last `size` elements of a history.
  pub record Tracks (n : ℕ) (r : RingBuffer A) (h : List A) : Type ℓ where
    pub valid : IsValid r
    pub same_size : r.size ≡ n
    pub window : contents r ≡ last n h

  -- One push on a buffer that shows a history.
  pub push-Tracks :
      (n : ℕ) (r : RingBuffer A) (h : List A) (x : A)
      → Tracks n r h
      → (r' : RingBuffer A) × (push r x ≡ some r') × Tracks n r' (h ++ (x ∷ []))
  push-Tracks n r h x t =
      let (r', pushed, valid, size, window) = push_lem r x t.valid in
      (
        r',
        pushed,
        record {
          valid = valid;
          same_size = size ∙ t.same_size;
          window =
              window
              ∙ ap (λ k. last k (contents r ++ (x ∷ []))) t.same_size
              ∙ ap (λ l. last n (l ++ (x ∷ []))) t.window
              ∙ last-last-append n h x (rw (← t.same_size) t.valid.positive);
        },
      )

  -- However many elements are pushed, no push panics, and the contents stay the last `size`
  -- elements of the whole history, oldest first.
  pub push_all-Tracks :
      (n : ℕ) (xs : List A) (r : RingBuffer A) (h : List A)
      → Tracks n r h
      → (r' : RingBuffer A) × (push_all r xs ≡ some r') × Tracks n r' (h ++ xs)
  unfolding push_all
  push_all-Tracks n [] r h t = (r, refl, rw append-nil t)
  push_all-Tracks n (x ∷ xs) r h t =
      let (r', pushed, step) = push-Tracks n r h x t in
      let (r'', all, tracks) = push_all-Tracks n xs r' (h ++ (x ∷ [])) step in
      (r'', rw (pushed, push_all) all, rw append_assoc at tracks)

  pub new_ring_buffer-Tracks : (n : ℕ) → 0 < n → Tracks n (new_ring_buffer n) []
  unfolding new_ring_buffer contents
  new_ring_buffer-Tracks n p = record {
    valid = record { positive = p; bounded = omega arith; start_in = p; filling = λ _. refl };
    same_size = refl;
    window = ground arith;
  }

  -- Pushing any list into a new buffer of a positive size never panics; afterwards the buffer
  -- holds the last `size` elements of the list, oldest first, and `Len` is the smaller of the size
  -- and the number of elements pushed.
  pub push_all-new_ring_buffer :
      (n : ℕ) (xs : List A)
      → 0 < n
      → (r : RingBuffer A) × (push_all (new_ring_buffer n) xs ≡ some r)
        × (contents r ≡ last n xs)
        × (len r ≡ min n (length xs))
  unfolding len
  push_all-new_ring_buffer n xs p =
      let (r, all, t) = push_all-Tracks n xs (new_ring_buffer n) [] (new_ring_buffer-Tracks n p) in
      (
        r,
        all,
        t.window,
        omega
            (arith, length-contents r t.valid, ap length t.window, length-drop (length xs - n) xs),
      )

  last-all : (n : ℕ) (xs : List A) → length xs ≤ n → last n xs ≡ xs
  last-all n xs h = let e : length xs - n ≡ 0 = omega arith in rw e

  ring_buffer_from_lem :
      (n : ℕ) (xs : List A)
      → ring_buffer_from n xs ≡ record { size = n; items = last n xs; start = 0 }
  unfolding ring_buffer_from new_ring_buffer
  ring_buffer_from_lem n [] =
      ap (λ l. record { size = n; items = l; start = 0 }) (sym (last-all n [] (omega arith)))
  ring_buffer_from_lem n (x ∷ xs) = elim (dec_lt n (length (x ∷ xs))) [
    | yes over ↦ ground arith
    | no fits ↦ ground (arith, last-all n (x ∷ xs))
  ]

  length-last : (n : ℕ) (xs : List A) → length (last n xs) ≡ min n (length xs)
  length-last n xs = omega (arith, length-drop (length xs - n) xs)

  -- `RingBufferFrom` starts a valid buffer of the size asked for, with the last `size` of the
  -- elements given; `Clear` empties a valid buffer and keeps it valid.
  pub ring_buffer_from-Tracks : (n : ℕ) (xs : List A) → 0 < n → Tracks n (ring_buffer_from n xs) xs
  ring_buffer_from-Tracks n xs p = rw (ring_buffer_from_lem n xs) (record {
    valid = record {
      positive = p;
      bounded = omega (arith, length-last n xs);
      start_in = p;
      filling = λ _. refl;
    };
    same_size = refl;
    window = contents_filling _ refl;
  })

  pub clear-Tracks : (r : RingBuffer A) → IsValid r → Tracks r.size (clear r) []
  unfolding clear contents
  clear-Tracks r v = record {
    valid = record {
      positive = v.positive;
      bounded = omega arith;
      start_in = v.positive;
      filling = λ _. refl;
    };
    same_size = refl;
    window = ground (arith, v.positive);
  }
