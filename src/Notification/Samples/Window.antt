-- ===== src/Notification/Samples/Window.antt =====
-- `RecordMetricSample` over a whole history of samples, through the ring buffer's specification.
use dozzle_gaia_fork.Common.{
  ℕ, suc, ◌*◌, ◌-◌, count_where, ◌≤◌, min, String, Bool, true, false, none, some, List, [], ◌∷◌,
  ◌++◌, length, ltb, leb, if◌then◌else◌, ◌≡◌, refl, ap, ◌∙◌, arith, append_assoc, append-nil,
  length-drop,
}
use dozzle_gaia_fork.Common.Int.{ℤ, pos, negsuc}
use dozzle_gaia_fork.Common.MapOps.{MapOps, load-store_self}
use dozzle_gaia_fork.Common.Outcome.{Outcome, ok, ◌>>=◌, of_option}
use dozzle_gaia_fork.Notification.Rule.{Expr, Rule}
use dozzle_gaia_fork.Notification.Samples.{
  buffer_of, get_sample_window_seconds, count_true, record_metric_sample,
}
use dozzle_gaia_fork.Notification.Subscription.{Subscription}
use dozzle_gaia_fork.Notification.Types.{Values}
use dozzle_gaia_fork.Utils.RingBuffer.{RingBuffer, push, len, contents}
use dozzle_gaia_fork.Utils.RingBuffer.History.{Tracks, push-Tracks, new_ring_buffer-Tracks}
use dozzle_gaia_fork.Utils.RingBuffer.Laws.{last, length-contents}

-- The window lies between 1 and 300 samples.
pub get_sample_window_seconds_bounds :
    (n : ℤ) → (1 ≤ get_sample_window_seconds n) × (get_sample_window_seconds n ≤ 300)
unfolding get_sample_window_seconds
get_sample_window_seconds_bounds (negsuc n) = omega arith
get_sample_window_seconds_bounds (pos n) = ground arith

-- The window is full, and four fifths of the last `w` samples matched.
abbrev pub enough : ℕ → List Bool → Bool
enough w h = if ltb (length h) w then false else leb (4 * w) (5 * count_where (λ b. b) (last w h))

buffer_of-store :
    (X : MapOps) (w : ℕ) (m : X.Map (RingBuffer Bool)) (id : String) (b : RingBuffer Bool)
    → buffer_of X w (X.store m id b) id ≡ b
buffer_of-store X w m id b = rw (load-store_self X m id b, buffer_of)

-- The loop counts the samples that matched.
count_true_lem : (bs : List Bool) → count_true bs ≡ count_where (λ b. b) bs
count_true_lem [] = refl
count_true_lem (true ∷ bs) = ap suc (count_true_lem bs)
count_true_lem (false ∷ bs) = count_true_lem bs

-- The test at the end of `RecordMetricSample` reads the history off the buffer.
enough_lem :
    (n : ℕ) (b : RingBuffer Bool) (h : List Bool)
    → Tracks n b h
    → (if ltb (len b) n then false else leb (4 * len b) (5 * count_true (contents b))) ≡ enough n h
unfolding len
enough_lem n b h t =
    let e : length b.items ≡ min n (length h) =
      omega (arith, length-contents b t.valid, ap length t.window, length-drop (length h - n) h) in
    rw (t.window, count_true_lem (last n h)) (ground (arith, e))

module _ {V : Values} {E : Expr V} {X : MapOps} where
  -- The buffer of a container, after the samples `h` of it.
  record Recorded (r : Rule E) (id : String) (h : List Bool) (s : Subscription E X) : Type 0 where
    pub same_rule : s.rule ≡ r
    pub buffers : X.Map (RingBuffer Bool)
    pub present : s.metric_sample_buffers ≡ some buffers
    pub tracks :
        Tracks
          (get_sample_window_seconds r.sample_window)
          (buffer_of X (get_sample_window_seconds r.sample_window) buffers id)
          h

  record_metric_sample_lem :
      (w : ℕ) (s : Subscription E X) (id : String) (x : Bool) (m : X.Map (RingBuffer Bool))
      (b : RingBuffer Bool)
      → get_sample_window_seconds s.rule.sample_window ≡ w
      → 2 ≤ w
      → s.metric_sample_buffers ≡ some m
      → push (buffer_of X w m id) x ≡ some b
      → record_metric_sample s id x
        ≡ ok (
          record s { metric_sample_buffers = some (X.store m id b) },
          if ltb (len b) w then false else leb (4 * len b) (5 * count_true (contents b)),
        )
  unfolding record_metric_sample
  record_metric_sample_lem w s id x m b same wide e p =
      let go_on : leb w 1 ≡ false = ground arith in
      rw (same, go_on, e)
        (ap
          (λ o. of_option o >>= λ buf. ok (
            record s { metric_sample_buffers = some (X.store m id buf) },
            if ltb (len buf) w then false else leb (4 * len buf) (5 * count_true (contents buf)),
          ))
          p)

  -- Samples recorded one after another.
  pub record_samples : Subscription E X → String → List Bool → Outcome (Subscription E X)
  record_samples s id [] = ok s
  record_samples s id (x ∷ xs) = record_metric_sample s id x >>= λ p. record_samples p.0 id xs

  Recorded-step :
      (r : Rule E) (id : String) (h : List Bool) (s : Subscription E X) (x : Bool)
      → 2 ≤ get_sample_window_seconds r.sample_window
      → Recorded r id h s
      → (s' : Subscription E X) × (record_metric_sample s id x
          ≡ ok (s', enough (get_sample_window_seconds r.sample_window) (h ++ (x ∷ []))))
        × Recorded r id (h ++ (x ∷ [])) s'
  Recorded-step r id h s x wide t =
      let w = get_sample_window_seconds r.sample_window in
      let (b, pushed, tracks) = push-Tracks w (buffer_of X w t.buffers id) h x t.tracks in
      (
        record s { metric_sample_buffers = some (X.store t.buffers id b) },
        record_metric_sample_lem w s id x t.buffers b
              (ap (λ q. get_sample_window_seconds q.sample_window) t.same_rule) wide t.present
              pushed
            ∙ ap (λ f. ok (record s { metric_sample_buffers = some (X.store t.buffers id b) }, f))
                (enough_lem w b (h ++ (x ∷ [])) tracks),
        record {
          same_rule = t.same_rule;
          buffers = X.store t.buffers id b;
          present = refl;
          tracks = rw (buffer_of-store X w t.buffers id b) tracks;
        },
      )

  record_samples-Recorded :
      (r : Rule E) (id : String) (xs h : List Bool) (s : Subscription E X)
      → 2 ≤ get_sample_window_seconds r.sample_window
      → Recorded r id h s
      → (s' : Subscription E X) × (record_samples s id xs ≡ ok s') × Recorded r id (h ++ xs) s'
  unfolding record_samples
  record_samples-Recorded r id [] h s wide t = (s, refl, rw append-nil t)
  record_samples-Recorded r id (x ∷ xs) h s wide t =
      let (s1, one, t1) = Recorded-step r id h s x wide t in
      let (s', all, t') = record_samples-Recorded r id xs (h ++ (x ∷ [])) s1 wide t1 in
      (s', rw (one, record_samples) all, rw append_assoc at t')

  -- For a rule with a window of two or more samples and a container with no buffer yet: recording
  -- the samples `xs` does not panic, and recording `x` after them does not either and reports
  -- true exactly if at least as many samples as the window holds were recorded and at least four
  -- fifths of the last window of them, `x` included, matched.
  pub record_metric_sample-record_samples :
      (s : Subscription E X) (id : String) (m : X.Map (RingBuffer Bool)) (xs : List Bool) (x : Bool)
      → 2 ≤ get_sample_window_seconds s.rule.sample_window
      → s.metric_sample_buffers ≡ some m
      → X.load m id ≡ none
      → (s1 s2 : Subscription E X) × (record_samples s id xs ≡ ok s1)
        × (record_metric_sample s1 id x
            ≡ ok (s2, enough (get_sample_window_seconds s.rule.sample_window) (xs ++ (x ∷ []))))
  record_metric_sample-record_samples s id m xs x wide e fresh =
      let w = get_sample_window_seconds s.rule.sample_window in
      let start : Recorded s.rule id [] s = record {
        same_rule = refl;
        buffers = m;
        present = e;
        tracks = rw (fresh, buffer_of) (new_ring_buffer-Tracks w (omega arith));
      } in
      let (s1, all, t) = record_samples-Recorded s.rule id xs [] s wide start in
      let (s2, one, _) = Recorded-step s.rule id xs s1 x wide t in (s1, s2, all, one)
