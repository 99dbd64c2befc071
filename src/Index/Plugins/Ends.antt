-- ===== src/Index/Plugins/Ends.antt =====
-- The calls of `_get_plugins` (data/cache_repo.py) come to an end, whatever the order of the threads.
use mcu.Base.{ℕ, ◌+◌, ◌*◌, ◌≤◌, ◌<◌, ◌≡◌, ◌⊎◌, refl, none, some}
use mcu.Base.{Option-cases, inl, inr, ltb, ltb→lt, Bool-cases, arith}
use mcu.Base.Family.{weigh, weigh-set_at, weigh-positive, weigh-const, weight-le-weigh}
use mcu.Index.Plugins.{Shared, Pc, called, waiting, locked, loading, leaving, reading, answered}
use mcu.Index.Plugins.{Move, System, Step, pick, Reach, start, later}
use mcu.Index.Plugins.Laws.{IsKnown, Inv, Reach-Inv}

module _ {P : Type 0} where
  -- How many steps a call still takes at most.
  abbrev rank : Pc P → ℕ
  rank called = 6
  rank waiting = 5
  rank locked = 4
  rank loading = 3
  rank leaving = 2
  rank reading = 1
  rank (answered _) = 0

module _ {P : Type 0} (discovered : P) where
  Move-rank :
      {i : ℕ} {m m' : Shared P} {p p' : Pc P} → Move discovered i m p m' p' → rank p' < rank p
  Move-rank Move.load = omega arith
  Move-rank mv = omega arith

  Reach-rank :
      {n k : ℕ} {s : System discovered} → Reach discovered n k s → k + weigh rank n s.pc ≤ n * 6
  Reach-rank {n} start = omega (arith, weigh-const rank n 6 called refl)
  Reach-rank {n} (later {s = s} r (pick i {p = p} lt mv)) =
      omega (arith, Reach-rank r, weigh-set_at rank n i p s.pc lt, Move-rank mv)

  -- A call that is not answered can move, unless it waits for the lock.
  can_move :
      (i : ℕ) (m : Shared P) (p : Pc P)
      → 0 < rank p
      → (p ≡ waiting → m.lock ≡ none)
      → (m' : Shared P) × (p' : Pc P) × Move discovered i m p m' p'
  can_move i m called h f = elim (Option-cases m.cache) [
    | inl e ↦ (_, _, Move.see_none e)
    | inr (p, e) ↦ (_, _, Move.see_some e)
  ]
  can_move i m waiting h f = (_, _, Move.acquire (f refl))
  can_move i m locked h f = elim (Option-cases m.cache) [
    | inl e ↦ (_, _, Move.still_none e)
    | inr (p, e) ↦ (_, _, Move.now_some e)
  ]
  can_move i m loading h f = (_, _, Move.load)
  can_move i m leaving h f = (_, _, Move.release)
  can_move i m reading h f = (_, _, Move.answer)
  can_move i m (answered v) h f = absurd (omega arith)

  -- If a call is left, it moves, or the one that holds the lock does.
  one_moves :
      {n : ℕ} {s : System discovered}
      → Inv discovered n s.mem s.pc
      → (i : ℕ) → i < n
      → 0 < rank (s.pc i)
      → (t : System discovered) × Step discovered n s t
  one_moves {n} {s} inv i lt h = elim (Option-cases s.mem.lock) [
    | inl e ↦ let (m', p', mv) = can_move i s.mem (s.pc i) h (λ _. e) in (_, pick i lt mv)
    | inr (j, e) ↦
        let (lt', c) = inv.held j e in
        let (m', p', mv) =
          can_move j s.mem (s.pc j) (ground (arith, c)) (λ w. ground (arith, c, w)) in
        (_, pick j lt' mv)
  ]

  -- A run takes at most six steps for each of the `n` calls, in whatever order they move, and while a
  -- call is not answered with the plugins, some call can move.
  pub calls_end :
      {n k : ℕ} {s : System discovered}
      → Reach discovered n k s
      → (k ≤ n * 6)
        × (((i : ℕ) → i < n → s.pc i ≡ answered (some discovered))
            ⊎ ((t : System discovered) × Step discovered n s t))
  calls_end {n} {s = s} r = (
    omega (arith, Reach-rank r),
    elim (Bool-cases (ltb 0 (weigh rank n s.pc))) [
      | inl y ↦
          let (i, lt, h) = weigh-positive rank n s.pc (ltb→lt 0 (weigh rank n s.pc) y) in
          inr (one_moves (Reach-Inv discovered r) i lt h)
      | inr n' ↦ inl (λ i lt.
          ended (s.pc i) (ground (arith, weight-le-weigh rank n s.pc i lt))
            ((Reach-Inv discovered r).known i))
    ],
  )
    where
      ended : (p : Pc P) → rank p ≡ 0 → IsKnown discovered s.mem p → p ≡ answered (some discovered)
      ended p h k = ground (arith, h, k)
