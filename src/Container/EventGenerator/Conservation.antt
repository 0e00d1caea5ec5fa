-- ===== src/Container/EventGenerator/Conservation.antt =====
-- The main loop of `processBuffer` delivers every line once, in order.
use dozzle_gaia_fork.Common.{
  ℕ, zero, suc, ◌<◌, String, Bool, true, Option, none, some, List, [], ◌∷◌, ◌++◌, length, ◌≡◌, refl,
  ap, subst, ◌∙◌, arith, ◌⊎◌, append_assoc, append-nil, All, All-append, Bool-cases, inl, inr,
}
use dozzle_gaia_fork.Container.EventGenerator.{
  Generator, Round, stop, more, peek, emit, flush_group, as_single, proceed, complex_round, starts,
  continues, join_next, simple_round, round_on, round, main_loop,
}
use dozzle_gaia_fork.Container.EventGenerator.Lines.{
  Item, items, items_of, upcoming, IsText, IsCreated, items_of-append, Taken, next_event-Taken,
  peek-Peeked, emit-Sent, flush_group-Sent,
}
use dozzle_gaia_fork.Container.LogEvent.{LogEvent, is_simple}

module _ {O : Type 0} where
  -- What was delivered, what is pending and what is still to be read, in the order of the log.
  abbrev pub total : List (LogEvent O) → Generator O → List (Item O)
  total pending g = items_of g.events ++ (items_of pending ++ items_of (upcoming g))

  -- A round that loses, repeats or reorders nothing, and reads one event if it goes on.
  abbrev pub Keeps : List (LogEvent O) → Generator O → Round O → Type 0
  Keeps pending g (stop g') = items_of g'.events ≡ total pending g
  Keeps pending g (more pending' g') =
      (total pending' g' ≡ total pending g)
      × All IsText pending'
      × All IsCreated (upcoming g')
      × (suc (length (upcoming g')) ≡ length (upcoming g))

  -- The slot's event may change its level, and nothing else changes.
  record Relabelled (g g' : Generator O) : Type 0 where
    pub same_events : g'.events ≡ g.events
    pub same_items : items_of (upcoming g') ≡ items_of (upcoming g)
    pub created : All IsCreated (upcoming g) → All IsCreated (upcoming g')
    pub same_length : length (upcoming g') ≡ length (upcoming g)

  join_next-Relabelled :
      (o : Option (LogEvent O)) (level : String) (g : Generator O)
      → g.next ≡ o
      → Relabelled g (join_next o level g)
  join_next-Relabelled none level g e = record {
    same_events = refl;
    same_items = refl;
    created = λ h. h;
    same_length = refl;
  }
  join_next-Relabelled (some n) level g e =
      rw e (record { same_events = refl; same_items = refl; created = λ h. h; same_length = refl })

module _ {O : Type 0} (accept : ℕ → Bool) (lossless : (n : ℕ) → accept n ≡ true) where
  upcoming_same :
      (g g' : Generator O) → g'.next ≡ g.next → g'.buffer ≡ g.buffer → upcoming g' ≡ upcoming g
  upcoming_same g g' e f = rw (e, f)

  -- A round that sent `given` and goes on with nothing pending.
  record Flushed (g : Generator O) (given : List (Item O)) (r : Round O) : Type 0 where
    pub after : Generator O
    pub goes_on : r ≡ more [] after
    pub delivered : items_of after.events ≡ items_of g.events ++ given
    pub same_upcoming : upcoming after ≡ upcoming g

  emit-Flushed :
      (g : Generator O) (e : LogEvent O)
      → Flushed g (items e.message) (proceed [] (emit accept g e))
  emit-Flushed g e =
      let (g', done, sent) = emit-Sent accept lossless g e in
      record {
        after = g';
        goes_on = rw done;
        delivered = sent.delivered;
        same_upcoming = upcoming_same g g' sent.same_next sent.same_buffer;
      }

  flush_group-Flushed :
      (g : Generator O) (p : List (LogEvent O))
      → All IsText p
      → Flushed g (items_of p) (proceed [] (flush_group accept g p))
  flush_group-Flushed g p h =
      let (g', done, sent) = flush_group-Sent accept lossless g p h in
      record {
        after = g';
        goes_on = rw done;
        delivered = sent.delivered;
        same_upcoming = upcoming_same g g' sent.same_next sent.same_buffer;
      }

  complex_round-Flushed :
      (pending : List (LogEvent O)) (e : LogEvent O) (g : Generator O)
      → All IsText pending
      → Flushed g (items_of pending ++ items e.message) (complex_round accept pending e g)
  unfolding complex_round
  complex_round-Flushed pending e g h =
      let (g1, flushed, s1) = flush_group-Sent accept lossless g pending h in
      let f2 = emit-Flushed g1 e in
      record {
        after = f2.after;
        goes_on = rw flushed f2.goes_on;
        delivered =
            f2.delivered
            ∙ ap (λ l. l ++ items e.message) s1.delivered
            ∙ append_assoc (items_of g.events) (items_of pending) (items e.message);
        same_upcoming = f2.same_upcoming ∙ upcoming_same g g1 s1.same_next s1.same_buffer;
      }

  Flushed-Keeps :
      (pending : List (LogEvent O)) (e : LogEvent O) (g0 g : Generator O) (r : Round O)
      → g.events ≡ g0.events
      → upcoming g0 ≡ e ∷ upcoming g
      → All IsCreated (upcoming g0)
      → Flushed g (items_of pending ++ items e.message) r
      → Keeps pending g0 r
  Flushed-Keeps pending e g0 g r same order c f = rw f.goes_on (
    rw (f.delivered, f.same_upcoming, same, order)
        (append_assoc (items_of g0.events) (items_of pending ++ items e.message) _
          ∙ ap (λ l. items_of g0.events ++ l)
              (append_assoc (items_of pending) (items e.message) (items_of (upcoming g)))),
    tt,
    rw f.same_upcoming (subst (All IsCreated) order c).1,
    rw (f.same_upcoming, order) refl,
  )

  -- A group that takes the next line, or one that begins.
  join-Keeps :
      (pending joined : List (LogEvent O)) (e : LogEvent O) (o : Option (LogEvent O))
      (level : String) (g0 g : Generator O)
      → g.events ≡ g0.events
      → upcoming g0 ≡ e ∷ upcoming g
      → All IsCreated (upcoming g0)
      → g.next ≡ o
      → All IsText joined
      → items_of joined ≡ items_of pending ++ items e.message
      → Keeps pending g0 (more joined (join_next o level g))
  join-Keeps pending joined e o level g0 g same order c slotted h same_items =
      let j = join_next-Relabelled o level g slotted in
      (
        rw (j.same_events, j.same_items, same, order, same_items)
            (ap (λ l. items_of g0.events ++ l)
              (append_assoc (items_of pending) (items e.message) (items_of (upcoming g)))),
        h,
        j.created (subst (All IsCreated) order c).1,
        rw (j.same_length, order) refl,
      )

  items_of-snoc :
      (pending : List (LogEvent O)) (e : LogEvent O)
      → items_of (pending ++ (e ∷ [])) ≡ items_of pending ++ items e.message
  items_of-snoc pending e =
      items_of-append pending (e ∷ [])
      ∙ ap (λ l. items_of pending ++ l) (append-nil (items e.message))

  simple_round-Keeps :
      (pending : List (LogEvent O)) (e : LogEvent O) (o : Option (LogEvent O)) (g0 g : Generator O)
      → g.events ≡ g0.events
      → upcoming g0 ≡ e ∷ upcoming g
      → All IsCreated (upcoming g0)
      → g.next ≡ o
      → All IsText pending
      → IsText e
      → Keeps pending g0 (simple_round accept pending e o g)
  unfolding simple_round
  simple_round-Keeps [] e o g0 g same order c slotted h t = elim (Bool-cases (starts e o)) [
    | inl begins ↦ rw begins (
        join-Keeps [] (e ∷ []) e o e.level g0 g same order c slotted (t, tt)
          (append-nil (items e.message)))
    | inr alone ↦ rw alone (Flushed-Keeps [] e g0 g _ same order c (emit-Flushed g (as_single e)))
  ]
  simple_round-Keeps (first ∷ ps) e o g0 g same order c slotted h t =
      let joined = first ∷ (ps ++ (e ∷ [])) in
      let texts_joined = All-append IsText (first ∷ ps) (e ∷ []) h (t, tt) in
      elim (Bool-cases (continues e o first.level)) [
        | inl goes_on ↦ rw goes_on (
            join-Keeps (first ∷ ps) joined e o first.level g0 g same order c slotted texts_joined
              (items_of-snoc (first ∷ ps) e))
        | inr ends ↦ rw ends (
            Flushed-Keeps (first ∷ ps) e g0 g _ same order c (
              subst (λ given. Flushed g given (proceed [] (flush_group accept g joined)))
                (items_of-snoc (first ∷ ps) e) (flush_group-Flushed g joined texts_joined)))
      ]

  end-Keeps :
      (pending : List (LogEvent O)) (g0 g : Generator O)
      → g.events ≡ g0.events
      → upcoming g0 ≡ []
      → All IsText pending
      → items_of (flush_group accept g pending).0.events ≡ total pending g0
  end-Keeps pending g0 g same order h =
      let (g', done, sent) = flush_group-Sent accept lossless g pending h in
      rw (done, order) (sent.delivered ∙ rw (same, append-nil))

  round_on-Keeps :
      (pending : List (LogEvent O)) (g : Generator O) (o : Option (LogEvent O)) (g1 : Generator O)
      → Taken g o g1
      → All IsText pending
      → All IsCreated (upcoming g)
      → Keeps pending g (round_on accept pending o g1)
  unfolding round_on
  round_on-Keeps pending g none g1 t h c =
      end-Keeps pending g g1 t.same_events (t.order ∙ t.ended refl) h
  round_on-Keeps pending g (some a) g1 t h c =
      let p = peek-Peeked g1 in
      elim (Bool-cases (is_simple a)) [
        | inl simple ↦ rw simple (
            simple_round-Keeps pending a (peek g1).0 g (peek g1).1 (p.same_events ∙ t.same_events)
              (t.order ∙ ap (◌∷◌ a) p.order) c p.in_slot h
              ((subst (All IsCreated) t.order c).0 simple))
        | inr not_simple ↦ rw not_simple (
            Flushed-Keeps pending a g g1 _ t.same_events t.order c
              (complex_round-Flushed pending a g1 h))
      ]

  -- A round of the main loop loses, repeats and reorders nothing.
  pub round-Keeps :
      (pending : List (LogEvent O)) (g : Generator O)
      → All IsText pending
      → All IsCreated (upcoming g)
      → Keeps pending g (round accept pending g)
  unfolding round
  round-Keeps pending g h c = round_on-Keeps pending g _ _ (next_event-Taken g) h c

  Round-cases :
      (r : Round O)
      → ((g : Generator O) × (r ≡ stop g))
        ⊎ ((p : List (LogEvent O)) × (g : Generator O) × (r ≡ more p g))
  Round-cases (stop g) = inl (g, refl)
  Round-cases (more p g) = inr (p, g, refl)

  -- Where every send succeeds and the events are as `createEvent` builds them: with more fuel than
  -- there are events to read the main loop ends, and the lines that were sent are those sent
  -- before, those of the pending group and those still to be read, in order, each once.
  pub main_loop-total :
      (fuel : ℕ) (pending : List (LogEvent O)) (g : Generator O)
      → length (upcoming g) < fuel
      → All IsText pending
      → All IsCreated (upcoming g)
      → (g' : Generator O) × (main_loop accept fuel pending g ≡ some g')
        × (items_of g'.events ≡ total pending g)
  unfolding main_loop
  main_loop-total zero pending g room h c = absurd (omega arith)
  main_loop-total (suc fuel) pending g room h c = elim (Round-cases (round accept pending g)) [
    | inl (g', e) ↦
        (g', rw (e, main_loop) refl, subst (Keeps pending g) e (round-Keeps pending g h c))
    | inr (p', g', e) ↦
        let (same, h', c', fewer) = subst (Keeps pending g) e (round-Keeps pending g h c) in
        let (g'', done, all) = main_loop-total fuel p' g' (omega arith) h' c' in
        (g'', rw (e, main_loop) done, all ∙ same)
  ]
