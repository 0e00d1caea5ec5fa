-- ===== src/Container/EventGenerator/Orphans.antt =====
-- `skipOrphanedLines`: what it may drop before the main loop begins.
use dozzle_gaia_fork.Common.{
  ℕ, zero, suc, ◌≤◌, ◌<◌, Bool, true, false, not, ◌&&◌, Option, none, some, List, [], ◌∷◌, ◌++◌,
  length, ltb, leb, ◌≡◌, refl, sym, ap, subst, ◌∙◌, arith, append_assoc, append-nil, All,
  All-append, if◌then◌else◌, Bool-cases, inl, inr, ◌⊎◌,
}
use dozzle_gaia_fork.Common.Int.{ℤ, is_pos}
use dozzle_gaia_fork.Container.EventGenerator.{
  Generator, Skip, found, again, peek, emit_as_singles, is_orphan, is_time_gap, return_next,
  max_orphan_lines, skip_take, skip_ahead, skip_on, skip_round, skip_loop,
}
use dozzle_gaia_fork.Container.EventGenerator.Lines.{
  Item, items, items_of, slot, upcoming, IsCreated, items_of-append, Taken, next_event-Taken,
  peek-Peeked, Sent, emit_as_singles-Sent,
}
use dozzle_gaia_fork.Container.LogEvent.{LogEvent, is_simple, has_level}

module _ {O : Type 0} where
  -- A line that could be the rest of a group of an earlier fetch: simple, without a level, dated.
  abbrev pub IsLevelless : LogEvent O → Type 0
  IsLevelless e = (is_simple e && (not (has_level e) && is_pos e.timestamp)) ≡ true

  -- The search ended with the event `o`: of the items `all`, those of `dropped` were lost, the
  -- others were sent or are still to come.
  pub record Found (all : List (Item O)) (n : ℕ) (o : Option (LogEvent O)) (g : Generator O)
      : Type 0 where
    pub dropped : List (LogEvent O)
    pub levelless : All IsLevelless dropped
    pub few : length dropped < max_orphan_lines
    pub conserved : items_of dropped ++ (items_of g.events ++ items_of (slot o ++ upcoming g)) ≡ all
    pub created : All IsCreated (slot o ++ upcoming g)
    pub short : length (slot o ++ upcoming g) ≤ suc n
    pub emptied : g.next ≡ none
    pub ended : o ≡ none → upcoming g ≡ []

  -- The search goes on at the event `e`, with the lines `orphans` buffered and nothing sent.
  pub record Again (all : List (Item O)) (n : ℕ) (orphans : List (LogEvent O)) (e : LogEvent O)
      (g : Generator O) : Type 0 where
    pub conserved : items_of orphans ++ (items e.message ++ items_of (upcoming g)) ≡ all
    pub quiet : g.events ≡ []
    pub levelless : All IsLevelless orphans
    pub few : length orphans < max_orphan_lines
    pub created : All IsCreated (e ∷ upcoming g)
    pub fewer : suc (length (upcoming g)) ≡ n
    pub emptied : g.next ≡ none

  abbrev SkipKeeps : List (Item O) → ℕ → Skip O → Type 0
  SkipKeeps all n (found o g) = Found all n o g
  SkipKeeps all n (again orphans last e g) = Again all n orphans e g

  Found-weaken :
      (all : List (Item O)) (m n : ℕ) (o : Option (LogEvent O)) (g : Generator O)
      → Found all m o g
      → m ≤ n
      → Found all n o g
  Found-weaken all m n o g f le = record {
    dropped = f.dropped;
    levelless = f.levelless;
    few = f.few;
    conserved = f.conserved;
    created = f.created;
    short = omega (arith, f.short);
    emptied = f.emptied;
    ended = f.ended;
  }

  orphan-IsLevelless : (last : ℤ) (e : LogEvent O) → is_orphan last e ≡ true → IsLevelless e
  orphan-IsLevelless last e h = ground arith

module _ {O : Type 0} (accept : ℕ → Bool) (lossless : (n : ℕ) → accept n ≡ true) where
  -- The buffered lines were sent as singles, then `o` was taken.
  Sent-SkipKeeps :
      (orphans : List (LogEvent O)) (g g1 : Generator O) (o : Option (LogEvent O))
      (g2 : Generator O) (all : List (Item O)) (n : ℕ)
      → g.events ≡ []
      → Sent accept lossless g (items_of orphans) g1
      → Taken g1 o g2
      → items_of orphans ++ items_of (upcoming g) ≡ all
      → All IsCreated (upcoming g)
      → length (upcoming g) ≤ suc n
      → Found all n o g2
  Sent-SkipKeeps orphans g g1 o g2 all n quiet s t is c le =
      let same : upcoming g ≡ slot o ++ upcoming g2 =
        sym (rw (s.same_next, s.same_buffer) refl) ∙ t.order in
      record {
        dropped = [];
        levelless = tt;
        few = omega arith;
        conserved = rw (t.same_events, s.delivered, quiet, ← same) is;
        created = subst (All IsCreated) same c;
        short = subst (λ l. length l ≤ suc n) same le;
        emptied = t.emptied;
        ended = t.ended;
      }

  return_next-SkipKeeps :
      (orphans : List (LogEvent O)) (g : Generator O) (all : List (Item O)) (n : ℕ)
      → g.events ≡ []
      → items_of orphans ++ items_of (upcoming g) ≡ all
      → All IsCreated (upcoming g)
      → length (upcoming g) ≤ suc n
      → SkipKeeps all n (return_next (emit_as_singles accept g orphans).0)
  return_next-SkipKeeps orphans g all n quiet is c le =
      let (g1, done, s) = emit_as_singles-Sent accept lossless g orphans in
      rw done (Sent-SkipKeeps orphans g g1 _ _ all n quiet s (next_event-Taken g1) is c le)

  skip_take-SkipKeeps :
      (orphans : List (LogEvent O)) (last : ℤ) (o : Option (LogEvent O)) (g g1 : Generator O)
      (all : List (Item O))
      → g.events ≡ []
      → Taken g o g1
      → items_of orphans ++ items_of (upcoming g) ≡ all
      → All IsLevelless orphans
      → length orphans < max_orphan_lines
      → All IsCreated (upcoming g)
      → SkipKeeps all (length (upcoming g)) (skip_take accept orphans last o g1)
  unfolding skip_take
  skip_take-SkipKeeps orphans last none g g1 all quiet t is l few c =
      let (g2, done, s) = emit_as_singles-Sent accept lossless g1 orphans in
      let over : upcoming g2 ≡ [] = rw (s.same_next, s.same_buffer) (t.ended refl) in
      let same : upcoming g1 ≡ upcoming g = sym t.order in
      rw done (
        Sent-SkipKeeps orphans g1 g2 none g2 all (length (upcoming g)) (t.same_events ∙ quiet) s
          (record {
            order = refl;
            ended = λ _. over;
            emptied = s.same_next ∙ t.emptied;
            same_events = refl;
          })
          (rw same is) (subst (All IsCreated) (sym same) c) (rw same (omega arith)))
  skip_take-SkipKeeps orphans last (some e) g g1 all quiet t is l few c = record {
    conserved = sym (ap (λ l. items_of orphans ++ items_of l) t.order) ∙ is;
    quiet = t.same_events ∙ quiet;
    levelless = l;
    few = few;
    created = subst (All IsCreated) t.order c;
    fewer = sym (ap length t.order);
    emptied = t.emptied;
  }

  skip_ahead-SkipKeeps :
      (orphans : List (LogEvent O)) (last : ℤ) (o : Option (LogEvent O)) (g : Generator O)
      (all : List (Item O))
      → g.events ≡ []
      → items_of orphans ++ items_of (upcoming g) ≡ all
      → All IsLevelless orphans
      → length orphans < max_orphan_lines
      → All IsCreated (upcoming g)
      → SkipKeeps all (length (upcoming g)) (skip_ahead accept orphans last o g)
  unfolding skip_ahead
  skip_ahead-SkipKeeps orphans last none g all quiet is l few c =
      return_next-SkipKeeps orphans g all (length (upcoming g)) quiet is c (omega arith)
  skip_ahead-SkipKeeps orphans last (some _) g all quiet is l few c =
      skip_take-SkipKeeps orphans last _ g _ all quiet (next_event-Taken g) is l few c

  skip_on-SkipKeeps :
      (orphans : List (LogEvent O)) (last : ℤ) (g : Generator O) (all : List (Item O))
      → g.events ≡ []
      → items_of orphans ++ items_of (upcoming g) ≡ all
      → All IsLevelless orphans
      → All IsCreated (upcoming g)
      → SkipKeeps all (length (upcoming g)) (skip_on accept orphans last g)
  unfolding skip_on
  skip_on-SkipKeeps orphans last g all quiet is l c =
      let p = peek-Peeked g in
      elim (Bool-cases (leb max_orphan_lines (length orphans))) [
        | inl full ↦
            rw full
              (return_next-SkipKeeps orphans g all (length (upcoming g)) quiet is c (omega arith))
        | inr few ↦
            rw (few, p.order)
              (skip_ahead-SkipKeeps orphans last (peek g).0 (peek g).1 all (p.same_events ∙ quiet)
                (rw (← p.order) is) l (ground arith) (subst (All IsCreated) p.order c))
      ]

  items_of-snoc_upcoming :
      (orphans : List (LogEvent O)) (e : LogEvent O) (rest : List (LogEvent O))
      → items_of (orphans ++ (e ∷ [])) ++ items_of rest
        ≡ items_of orphans ++ (items e.message ++ items_of rest)
  items_of-snoc_upcoming orphans e rest =
      ap (λ l. l ++ items_of rest)
        (items_of-append orphans (e ∷ [])
          ∙ ap (λ l. items_of orphans ++ l) (append-nil (items e.message)))
      ∙ append_assoc (items_of orphans) (items e.message) (items_of rest)

  far-Found :
      (orphans : List (LogEvent O)) (e : LogEvent O) (g g1 : Generator O) (all : List (Item O))
      → Sent accept lossless g (items_of orphans) g1
      → Again all (suc (length (upcoming g))) orphans e g
      → Found all (length (upcoming g)) (some e) g1
  far-Found orphans e g g1 all s k =
      let same : upcoming g1 ≡ upcoming g = rw (s.same_next, s.same_buffer) refl in
      record {
        dropped = [];
        levelless = tt;
        few = omega arith;
        conserved =
            rw (s.delivered, k.quiet)
              (ap (λ u. items_of orphans ++ (items e.message ++ items_of u)) same ∙ k.conserved);
        created = subst (λ u. All IsCreated (e ∷ u)) (sym same) k.created;
        short = subst (λ u. suc (length u) ≤ suc (length (upcoming g))) (sym same) (omega arith);
        emptied = s.same_next ∙ k.emptied;
        ended = λ h. cc;
      }

  -- A line that is no orphan ends the search: the buffered lines are sent if it is far from them in
  -- time, and dropped otherwise.
  break-Found :
      (orphans : List (LogEvent O)) (far : Bool) (e : LogEvent O) (g : Generator O)
      (all : List (Item O))
      → Again all (suc (length (upcoming g))) orphans e g
      → SkipKeeps all
          (length (upcoming g))
          (if far then found (some e) (emit_as_singles accept g orphans).0 else found (some e) g)
  break-Found orphans true e g all k =
      let (g1, done, s) = emit_as_singles-Sent accept lossless g orphans in
      rw done (far-Found orphans e g _ all s k)
  break-Found orphans false e g all k = record {
    dropped = orphans;
    levelless = k.levelless;
    few = k.few;
    conserved = rw k.quiet k.conserved;
    created = k.created;
    short = omega arith;
    emptied = k.emptied;
    ended = λ h. cc;
  }

  skip_round-SkipKeeps :
      (orphans : List (LogEvent O)) (last : ℤ) (e : LogEvent O) (g : Generator O)
      (all : List (Item O))
      → Again all (suc (length (upcoming g))) orphans e g
      → SkipKeeps all (length (upcoming g)) (skip_round accept orphans last e g)
  unfolding skip_round
  skip_round-SkipKeeps orphans last e g all k = elim (Bool-cases (is_orphan last e)) [
    | inl orphan ↦ rw orphan (
        skip_on-SkipKeeps (orphans ++ (e ∷ [])) e.timestamp g all k.quiet
          (items_of-snoc_upcoming orphans e (upcoming g) ∙ k.conserved)
          (All-append IsLevelless orphans (e ∷ []) k.levelless
            (orphan-IsLevelless last e orphan, tt))
          k.created.1)
    | inr no_orphan ↦
        rw no_orphan (break-Found orphans (ltb 0 (length orphans) && is_time_gap last e) e g all k)
  ]

  Skip-cases :
      (r : Skip O)
      → ((o : Option (LogEvent O)) × (g : Generator O) × (r ≡ found o g))
        ⊎ ((orphans : List (LogEvent O)) × (last : ℤ) × (e : LogEvent O) × (g : Generator O) × (r
              ≡ again orphans last e g))
  Skip-cases (found o g) = inl (o, g, refl)
  Skip-cases (again orphans last e g) = inr (orphans, last, e, g, refl)

  skip_loop_again :
      (fuel : ℕ) (orphans : List (LogEvent O)) (last : ℤ) (e : LogEvent O) (g : Generator O)
      (orphans' : List (LogEvent O)) (last' : ℤ) (e' : LogEvent O) (g' : Generator O)
      → skip_round accept orphans last e g ≡ again orphans' last' e' g'
      → skip_loop accept (suc fuel) orphans last e g ≡ skip_loop accept fuel orphans' last' e' g'
  unfolding skip_loop
  skip_loop_again fuel orphans last e g orphans' last' e' g' is = rw (is, skip_loop) refl

  -- With more fuel than there are events to read, the search ends.
  pub skip_loop-Found :
      (fuel : ℕ) (orphans : List (LogEvent O)) (last : ℤ) (e : LogEvent O) (g : Generator O)
      (all : List (Item O)) (n : ℕ)
      → length (upcoming g) < fuel
      → length (upcoming g) ≤ n
      → Again all (suc (length (upcoming g))) orphans e g
      → (o : Option (LogEvent O)) × (g' : Generator O) × (skip_loop accept fuel orphans last e g
          ≡ some (o, g'))
        × Found all n o g'
  unfolding skip_loop
  skip_loop-Found zero orphans last e g all n room le k = absurd (omega arith)
  skip_loop-Found (suc fuel) orphans last e g all n room le k =
      let kept = skip_round-SkipKeeps orphans last e g all k in
      elim (Skip-cases (skip_round accept orphans last e g)) [
        | inl (o, g', is) ↦
            let f = subst (SkipKeeps all (length (upcoming g))) is kept in
            (o, g', rw (is, skip_loop) refl, Found-weaken all _ n o g' f (omega arith))
        | inr (orphans', last', e', g', is) ↦
            let k' = subst (SkipKeeps all (length (upcoming g))) is kept in
            let fewer : suc (length (upcoming g')) ≡ length (upcoming g) = k'.fewer in
            let (o, g'', done, f) =
              skip_loop-Found fuel orphans' last' e' g' all n (omega arith) (omega arith)
                (subst (λ m. Again all m orphans' e' g') (sym fewer) k') in
            (o, g'', skip_loop_again fuel orphans last e g _ _ _ g' is ∙ done, f)
      ]
