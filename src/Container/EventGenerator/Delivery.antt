-- ===== src/Container/EventGenerator/Delivery.antt =====
-- `processBuffer` from its start to its end: what it delivers.
use dozzle_gaia_fork.Common.{
  ℕ, suc, ◌≤◌, ◌<◌, Bool, true, Option, none, some, List, [], ◌∷◌, ◌++◌, length, ◌≡◌, refl, sym, ap,
  subst, ◌∙◌, arith, append-nil, All, Bool-cases, inl, inr,
}
use dozzle_gaia_fork.Common.Int.{ℤ, pos}
use dozzle_gaia_fork.Container.EventGenerator.{
  Generator, next_event, max_orphan_lines, near_start, skip_from, skip_orphaned_lines, process_from,
  process_buffer,
}
use dozzle_gaia_fork.Container.EventGenerator.Conservation.{main_loop-total}
use dozzle_gaia_fork.Container.EventGenerator.Lines.{
  items_of, slot, upcoming, IsCreated, Taken, next_event-Taken,
}
use dozzle_gaia_fork.Container.LogEvent.{LogEvent}
use dozzle_gaia_fork.Container.EventGenerator.Orphans.{IsLevelless, Found, skip_loop-Found}

module _ {O : Type 0} where
  -- What the goroutine did: of the lines to be read it dropped those of `dropped`, and it sent the
  -- others.
  pub record Delivered (g g' : Generator O) : Type 0 where
    pub dropped : List (LogEvent O)
    pub levelless : All IsLevelless dropped
    pub few : length dropped < max_orphan_lines
    pub conserved : items_of dropped ++ items_of g'.events ≡ items_of (upcoming g)

module _ {O : Type 0} (accept : ℕ → Bool) (lossless : (n : ℕ) → accept n ≡ true) where
  process_from-Delivered :
      (fuel : ℕ) (o : Option (LogEvent O)) (g0 g : Generator O) (n : ℕ)
      → Found (items_of (upcoming g0)) n o g
      → suc n < fuel
      → (g' : Generator O) × (process_from accept fuel (o, g) ≡ some g') × Delivered g0 g'
  unfolding process_from
  process_from-Delivered fuel none g0 g n f room = (
    g,
    refl,
    record {
      dropped = f.dropped;
      levelless = f.levelless;
      few = f.few;
      conserved =
          ap (λ l. items_of f.dropped ++ l) (sym (append-nil (items_of g.events)))
          ∙ subst
              (λ u.
                items_of f.dropped ++ (items_of g.events ++ items_of u) ≡ items_of (upcoming g0))
              (f.ended refl) f.conserved;
    },
  )
  process_from-Delivered fuel (some e) g0 g n f room =
      let restart = record g { next = some e } in
      let same : upcoming restart ≡ e ∷ upcoming g = rw f.emptied refl in
      let (g', done, sent) =
        main_loop-total accept lossless fuel [] restart
          (subst (λ u. length u < fuel) (sym same) (omega (arith, f.short))) tt
          (subst (All IsCreated) (sym same) f.created) in
      (
        g',
        done,
        record {
          dropped = f.dropped;
          levelless = f.levelless;
          few = f.few;
          conserved =
              ap (λ l. items_of f.dropped ++ l)
                (sent ∙ ap (λ u. items_of g.events ++ items_of u) same)
              ∙ f.conserved;
        },
      )

  Taken-Found :
      (o : Option (LogEvent O)) (g g1 : Generator O)
      → g.events ≡ []
      → Taken g o g1
      → All IsCreated (upcoming g)
      → Found (items_of (upcoming g)) (length (upcoming g)) o g1
  Taken-Found o g g1 quiet t c = record {
    dropped = [];
    levelless = tt;
    few = omega arith;
    conserved = rw (t.same_events, quiet) (ap items_of (sym t.order));
    created = subst (All IsCreated) t.order c;
    short = subst (λ u. length u ≤ suc (length (upcoming g))) t.order (omega arith);
    emptied = t.emptied;
    ended = t.ended;
  }

  skip_from-Found :
      (fuel : ℕ) (started_at : Option ℤ) (o : Option (LogEvent O)) (g g1 : Generator O)
      → g.events ≡ []
      → Taken g o g1
      → All IsCreated (upcoming g)
      → length (upcoming g) < fuel
      → (o' : Option (LogEvent O)) × (g' : Generator O) × (skip_from accept fuel started_at o g1
          ≡ some (o', g'))
        × Found (items_of (upcoming g)) (length (upcoming g)) o' g'
  unfolding skip_from
  skip_from-Found fuel started_at none g g1 quiet t c room =
      (none, g1, refl, Taken-Found none g g1 quiet t c)
  skip_from-Found fuel started_at (some e) g g1 quiet t c room =
      elim (Bool-cases (near_start started_at e)) [
        | inl near ↦ (some e, g1, rw near refl, Taken-Found (some e) g g1 quiet t c)
        | inr later ↦
            let counted : suc (length (upcoming g1)) ≡ length (upcoming g) =
              sym (ap length t.order) in
            let (o, g', done, f) =
              skip_loop-Found accept lossless fuel [] (pos 0) e g1 (items_of (upcoming g))
                (length (upcoming g)) (omega arith) (omega arith)
                (record {
                  conserved = ap items_of (sym t.order);
                  quiet = t.same_events ∙ quiet;
                  levelless = tt;
                  few = omega arith;
                  created = subst (All IsCreated) t.order c;
                  fewer = refl;
                  emptied = t.emptied;
                }) in
            (o, g', rw later done, f)
      ]

  process_buffer_found :
      (fuel : ℕ) (started_at : Option ℤ) (g : Generator O) (o : Option (LogEvent O))
      (g1 : Generator O)
      → skip_from accept fuel started_at (next_event g).0 (next_event g).1 ≡ some (o, g1)
      → process_buffer accept fuel started_at g ≡ process_from accept fuel (o, g1)
  unfolding process_buffer skip_orphaned_lines
  process_buffer_found fuel started_at g o g1 is = rw (is, process_buffer) refl

  -- Where every send succeeds, nothing was sent yet and the events to be read are as `createEvent`
  -- builds them: with two more units of fuel than there are events, `processBuffer` ends. It sent
  -- every line of the log once and in order, but for less than a thousand at the very beginning,
  -- each of which is a simple, dated line without a level.
  pub process_buffer-Delivered :
      (fuel : ℕ) (started_at : Option ℤ) (g : Generator O)
      → g.events ≡ []
      → All IsCreated (upcoming g)
      → suc (length (upcoming g)) < fuel
      → (g' : Generator O) × (process_buffer accept fuel started_at g ≡ some g') × Delivered g g'
  unfolding process_buffer skip_orphaned_lines
  process_buffer-Delivered fuel started_at g quiet c room =
      let (o, g1, found_at, f) =
        skip_from-Found fuel started_at (next_event g).0 g (next_event g).1 quiet
          (next_event-Taken g) c (omega arith) in
      let (g', done, d) = process_from-Delivered fuel o g g1 _ f room in
      (g', process_buffer_found fuel started_at g o g1 found_at ∙ done, d)

  -- Where every send succeeds, nothing was sent yet, the events to be read are as `createEvent`
  -- builds them and the first of them is dated less than five seconds from the container's start:
  -- with two more units of fuel than there are events, `processBuffer` ends and sent every line.
  pub process_buffer-near_start :
      (fuel : ℕ) (started_at : Option ℤ) (g : Generator O) (e : LogEvent O)
      → g.events ≡ []
      → All IsCreated (upcoming g)
      → suc (length (upcoming g)) < fuel
      → (next_event g).0 ≡ some e
      → near_start started_at e ≡ true
      → (g' : Generator O) × (process_buffer accept fuel started_at g ≡ some g')
        × (items_of g'.events ≡ items_of (upcoming g))
  unfolding process_buffer skip_orphaned_lines skip_from
  process_buffer-near_start fuel started_at g e quiet c room is near =
      let t = next_event-Taken g in
      let g1 = (next_event g).1 in
      let restart = record g1 { next = some e } in
      let same : upcoming restart ≡ upcoming g =
        rw t.emptied refl ∙ sym (t.order ∙ ap (λ o. slot o ++ upcoming g1) is) in
      let (g', done, sent) =
        main_loop-total accept lossless fuel [] restart
          (subst (λ u. length u < fuel) (sym same) (omega arith)) tt
          (subst (All IsCreated) (sym same) c) in
      (
        g',
        process_buffer_found fuel started_at g (some e) g1 (rw (is, skip_from, near) refl) ∙ done,
        sent
            ∙ ap (λ l. l ++ items_of (upcoming restart)) (ap items_of (t.same_events ∙ quiet))
            ∙ ap items_of same,
      )
