-- ===== src/Utils/RingBuffer/Laws.antt =====
-- The ring buffer against its specification: the last `size` elements pushed, oldest first.
use dozzle_gaia_fork.Common.{
  ℕ, zero, suc, ◌+◌, ◌-◌, ◌%◌, ◌≤◌, ◌<◌, ◌≡◌, refl, sym, ap, ◌∙◌, some, List, [], ◌∷◌, ◌++◌,
  append_assoc, append-nil, length, take, drop, set, arith, length-set, length-append, length-drop,
  length-take, drop-append_le, take-all, drop-all, Bool-cases, inl, inr, ◌==◌,
}
use dozzle_gaia_fork.Utils.RingBuffer.{RingBuffer, push, contents}
use native.Mathlib.Decide.{dec_lt, ℕ_discrete}

pub record IsValid {ℓ} {A : Type ℓ} (r : RingBuffer A) : Type ℓ where
  pub positive : 0 < r.size
  pub bounded : length r.items ≤ r.size
  pub start_in : r.start < r.size
  pub filling : length r.items < r.size → r.start ≡ 0

-- The last `n` elements of a list.
abbrev pub last {ℓ} : {A : Type ℓ} → ℕ → List A → List A
last n xs = drop (length xs - n) xs

module _ {ℓ} {A : Type ℓ} where
  drop-set : (xs : List A) (i : ℕ) (v : A) → drop (suc i) (set xs i v) ≡ drop (suc i) xs
  drop-set [] zero v = refl
  drop-set [] (suc i) v = refl
  drop-set (x ∷ xs) zero v = refl
  drop-set (x ∷ xs) (suc i) v = drop-set xs i v

  take-set :
      (xs : List A) (i : ℕ) (v : A)
      → i < length xs
      → take (suc i) (set xs i v) ≡ take i xs ++ (v ∷ [])
  take-set [] i v h = absurd (omega arith)
  take-set (x ∷ xs) zero v h = refl
  take-set (x ∷ xs) (suc i) v h = ap (◌∷◌ x) (take-set xs i v (omega arith))

  pub drop_one-drop : (i : ℕ) (xs : List A) → drop 1 (drop i xs) ≡ drop (suc i) xs
  drop_one-drop zero [] = refl
  drop_one-drop zero (x ∷ xs) = refl
  drop_one-drop (suc i) [] = refl
  drop_one-drop (suc i) (x ∷ xs) = drop_one-drop i xs

  -- Where the write closes the round, the buffer starts at its front again.
  rotate_full :
      (xs : List A) (i n : ℕ) (v : A)
      → length xs ≡ n
      → i < n
      → drop ((i + 1) % n) (set xs i v) ++ take ((i + 1) % n) (set xs i v)
        ≡ drop (suc i) xs ++ (take i xs ++ (v ∷ []))
  rotate_full xs i n v e h = elim (dec_lt (i + 1) n) [
    | yes p ↦
        let q : (i + 1) % n ≡ suc i = grind arith in
        rw (q, drop-set xs i v, take-set xs i v (omega arith))
    | no p ↦
        let q : (i + 1) % n ≡ 0 = grind arith in
        rw (q, append-nil, drop-all (suc i) xs (omega arith))
          (sym (take-all (suc i) (set xs i v) (omega (arith, length-set xs i v)))
            ∙ take-set xs i v (omega arith))
  ]

  push_full :
      (r : RingBuffer A) (x : A)
      → IsValid r
      → length r.items ≡ r.size
      → push r x ≡ some (record r { items = set r.items r.start x; start = (r.start + 1) % r.size })
  unfolding push
  push_full r x v e = ground arith

  push_room :
      (r : RingBuffer A) (x : A)
      → length r.items < r.size
      → push r x ≡ some (record r { items = r.items ++ (x ∷ []) })
  unfolding push
  push_room r x h = ground arith

  contents_full :
      (r : RingBuffer A)
      → length r.items ≡ r.size
      → contents r ≡ drop r.start r.items ++ take r.start r.items
  unfolding contents
  contents_full r e = ground arith

  contents_room : (r : RingBuffer A) → length r.items < r.size → contents r ≡ r.items
  unfolding contents
  contents_room r h = ground arith

  -- While the buffer fills, its contents are its items as they stand.
  pub contents_filling : (r : RingBuffer A) → r.start ≡ 0 → contents r ≡ r.items
  unfolding contents
  contents_filling r e = elim (Bool-cases (length r.items == r.size)) [
    | inl full ↦ rw (full, e, append-nil)
    | inr room ↦ rw room
  ]

  pub length-contents : (r : RingBuffer A) → IsValid r → length (contents r) ≡ length r.items
  length-contents r v = elim (ℕ_discrete (length r.items) r.size) [
    | yes e ↦ rw (contents_full r e) (
        omega (
          arith,
          length-append (drop r.start r.items) (take r.start r.items),
          length-drop r.start r.items,
          length-take r.start r.items,
        ))
    | no ne ↦ rw (contents_room r (omega (arith, v.bounded))) refl
  ]

  pub last-append_full :
      (n : ℕ) (ys : List A) (x : A)
      → 0 < n
      → length ys ≡ n
      → last n (ys ++ (x ∷ [])) ≡ drop 1 ys ++ (x ∷ [])
  last-append_full n ys x h e =
      let one : length (ys ++ (x ∷ [])) - n ≡ 1 = omega (arith, length-append ys (x ∷ [])) in
      rw one (drop-append_le 1 ys (x ∷ []) (omega arith))

  pub last-append_room :
      (n : ℕ) (ys : List A) (x : A) → length ys < n → last n (ys ++ (x ∷ [])) ≡ ys ++ (x ∷ [])
  last-append_room n ys x h =
      let none_over : length (ys ++ (x ∷ [])) - n ≡ 0 = omega (arith, length-append ys (x ∷ [])) in
      rw none_over

  drop_one-contents :
      (r : RingBuffer A)
      → IsValid r
      → length r.items ≡ r.size
      → drop 1 (contents r) ≡ drop (suc r.start) r.items ++ take r.start r.items
  drop_one-contents r v e = rw (contents_full r e) (
      drop-append_le 1 (drop r.start r.items) (take r.start r.items)
        (omega (arith, v.start_in, length-drop r.start r.items))
      ∙ ap (λ l. l ++ take r.start r.items) (drop_one-drop r.start r.items))

  -- What one `push` does: it does not panic, keeps the invariant and the size, and afterwards the
  -- contents are the last `size` of the old contents and the new element.
  record Pushed (r : RingBuffer A) (x : A) (r' : RingBuffer A) : Type ℓ where
    pub pushed : push r x ≡ some r'
    pub valid : IsValid r'
    pub same_size : r'.size ≡ r.size
    pub window : contents r' ≡ last r.size (contents r ++ (x ∷ []))

  Pushed-full :
      (r : RingBuffer A) (x : A)
      → IsValid r
      → length r.items ≡ r.size
      → Pushed r x (record r { items = set r.items r.start x; start = (r.start + 1) % r.size })
  Pushed-full r x v e = record {
    pushed = push_full r x v e;
    valid = record {
      positive = v.positive;
      bounded = omega (arith, length-set r.items r.start x);
      start_in = grind arith;
      filling = λ h. absurd (omega (arith, length-set r.items r.start x));
    };
    same_size = refl;
    window =
        contents_full _ (length-set r.items r.start x ∙ e)
        ∙ rotate_full r.items r.start r.size x e v.start_in
        ∙ sym (append_assoc (drop (suc r.start) r.items) (take r.start r.items) (x ∷ []))
        ∙ ap (λ l. l ++ (x ∷ [])) (sym (drop_one-contents r v e))
        ∙ sym (last-append_full r.size (contents r) x v.positive (length-contents r v ∙ e));
  }

  Pushed-room :
      (r : RingBuffer A) (x : A)
      → IsValid r
      → length r.items < r.size
      → Pushed r x (record r { items = r.items ++ (x ∷ []) })
  Pushed-room r x v h = record {
    pushed = push_room r x h;
    valid = record {
      positive = v.positive;
      bounded = omega (arith, length-append r.items (x ∷ []));
      start_in = v.start_in;
      filling = λ _. v.filling h;
    };
    same_size = refl;
    window =
        contents_filling _ (v.filling h)
        ∙ ap (λ l. l ++ (x ∷ [])) (sym (contents_room r h))
        ∙ sym (last-append_room r.size (contents r) x (rw (length-contents r v) h));
  }

  -- A push never panics on a valid buffer, keeps it valid and of its size, and afterwards the
  -- contents are the last `size` of the old contents and the new element.
  pub push_lem :
      (r : RingBuffer A) (x : A)
      → IsValid r
      → (r' : RingBuffer A) × (push r x ≡ some r')
        × IsValid r'
        × (r'.size ≡ r.size)
        × (contents r' ≡ last r.size (contents r ++ (x ∷ [])))
  push_lem r x v = elim (ℕ_discrete (length r.items) r.size) [
    | yes e ↦ let p = Pushed-full r x v e in (_, p.pushed, p.valid, p.same_size, p.window)
    | no ne ↦
        let p = Pushed-room r x v (omega (arith, v.bounded)) in
        (_, p.pushed, p.valid, p.same_size, p.window)
  ]
