-- ===== src/Network/Tcp/Stalls/Bound.antt =====
-- The stalls of a connection lie within its lifetime.
use sahabino.Common.{
  ℕ, ◌+◌, ◌-◌, ◌≤◌, ◌<◌, ◌≡◌, inl, inr, List, [], ◌∷◌, map, arith, ltb, leb, leb-false→lt, ltb→lt,
  Bool-cases, All, All-append, sum_of, some, Option-cases,
}
use sahabino.Common.Maps.{get, update, delete, values, set_default}
use sahabino.Network.Packets.{PacketRecord, DirectionKey, direction_key, same_key}
use sahabino.Network.Tcp.Stalls.{
  Interval, Stalls, stall_step, end_stall, stalls_of, close_stalls, insert_interval, sort_intervals,
  merge_step, merge_intervals, stall_duration, has_window, before,
}

total : List Interval → ℕ
total is = sum_of (λ i. i.ended - i.started) is

module _ (low high : ℕ) where
  -- A time between the two.
  abbrev pub Between : ℕ → Type 0
  Between t = (low ≤ t) × (t ≤ high)

  abbrev pub Inside : Interval → Type 0
  Inside i = (low ≤ i.started) × (i.ended ≤ high)

  -- The merged intervals lie between the two times, and those before the last one end before it starts.
  Apart : List Interval → Type 0
  Apart [] = Unit
  Apart (m ∷ ms) =
      (low ≤ m.started) × (m.started < m.ended) × (m.ended ≤ high) × (low + total ms ≤ m.started)

  merge_step-Apart :
      (ms : List Interval) (i : Interval) → Apart ms → Inside i → Apart (merge_step ms i)
  unfolding merge_step Apart total sum_of
  merge_step-Apart [] i a h = elim (Bool-cases (leb i.ended i.started)) [
    | inl e ↦ rw e tt
    | inr e ↦ rw e (h.0, leb-false→lt i.ended i.started e, h.1, omega (arith, h))
  ]
  merge_step-Apart (m ∷ ms) i a h = elim (Bool-cases (leb i.ended i.started)) [
    | inl e ↦ rw e a
    | inr e ↦
        let proper = leb-false→lt i.ended i.started e in
        elim (Bool-cases (ltb m.ended i.started)) [
          | inl f ↦
              let later = ltb→lt m.ended i.started f in
              rw (e, f) (h.0, proper, h.1, omega (arith, a, later))
          | inr f ↦
              rw (e, f) (omega (arith, a), omega (arith, a), omega (arith, a, h), omega (arith, a))
        ]
  ]

  merge-Apart : (ms is : List Interval) → Apart ms → All Inside is → Apart (merge_intervals ms is)
  unfolding merge_intervals
  merge-Apart ms [] a all = a
  merge-Apart ms (i ∷ is) a (h, all) =
      merge-Apart (merge_step ms i) is (merge_step-Apart ms i a h) all

  Apart-total : (ms : List Interval) → Apart ms → total ms ≤ high - low
  unfolding Apart total sum_of
  Apart-total [] a = omega arith
  Apart-total (m ∷ ms) a = omega arith

  insert-Inside :
      (i : Interval) (is : List Interval)
      → Inside i
      → All Inside is
      → All Inside (insert_interval i is)
  unfolding insert_interval
  insert-Inside i [] h all = (h, tt)
  insert-Inside i (j ∷ js) h (hj, all) = elim (Bool-cases (before i j)) [
    | inl e ↦ rw e (h, (hj, all))
    | inr e ↦ rw e (hj, insert-Inside i js h all)
  ]

  sort-Inside : (is : List Interval) → All Inside is → All Inside (sort_intervals is)
  unfolding sort_intervals
  sort-Inside [] all = tt
  sort-Inside (i ∷ is) (h, all) = insert-Inside i (sort_intervals is) h (sort-Inside is all)

  pub duration_bound : (is : List Interval) → All Inside is → stall_duration is ≤ high - low
  unfolding stall_duration total Apart
  duration_bound is all =
      Apart-total (merge_intervals [] (sort_intervals is))
        (merge-Apart [] (sort_intervals is) tt (sort-Inside is all))

  -- The open stalls began, and the ended ones lie, between the two times.
  abbrev Within : Stalls → Type 0
  Within s = All Between (values s.open_stalls) × All Inside s.stall_intervals

  get-Between :
      (k : DirectionKey) (t : ℕ) (d : List (DirectionKey × ℕ))
      → All Between (values d)
      → get same_key k d ≡ some t
      → Between t
  unfolding get values
  get-Between k t [] all e = cc
  get-Between k t ((j, u) ∷ d) (h, all) e = elim (Bool-cases (same_key j k)) [
    | inl f ↦ (ground arith, ground arith)
    | inr f ↦ get-Between k t d all (rw f at e)
  ]

  delete-Between :
      (k : DirectionKey) (d : List (DirectionKey × ℕ))
      → All Between (values d)
      → All Between (values (delete same_key k d))
  unfolding delete values
  delete-Between k [] all = tt
  delete-Between k ((j, u) ∷ d) (h, all) = elim (Bool-cases (same_key j k)) [
    | inl f ↦ rw f all
    | inr f ↦ rw f (h, delete-Between k d all)
  ]

  set_default-Between :
      (k : DirectionKey) (t : ℕ) (d : List (DirectionKey × ℕ))
      → Between t
      → All Between (values d)
      → All Between (values (set_default same_key k t d))
  unfolding update values
  set_default-Between k t [] b all = (b, tt)
  set_default-Between k t ((j, u) ∷ d) b (h, all) = elim (Bool-cases (same_key j k)) [
    | inl f ↦ rw f (h, all)
    | inr f ↦ rw f (h, set_default-Between k t d b all)
  ]

  end_stall-Within :
      (k : DirectionKey) (t : ℕ) (s : Stalls) → Between t → Within s → Within (end_stall k t s)
  unfolding end_stall
  end_stall-Within k t s b w = elim (Option-cases (get same_key k s.open_stalls)) [
    | inl e ↦ rw (e, end_stall) w
    | inr (u, e) ↦
        let since = get-Between k u s.open_stalls w.0 e in
        rw (e, end_stall)
          (
            delete-Between k s.open_stalls w.0,
            All-append Inside s.stall_intervals _ w.1 ((since.0, b.1), tt),
          )
  ]

  stall_step-Within :
      (s : Stalls) (p : PacketRecord) → Between p.timestamp → Within s → Within (stall_step s p)
  unfolding stall_step
  stall_step-Within s p b w = elim (Bool-cases p.tcp_zero_window) [
    | inl e ↦ rw e (set_default-Between (direction_key p) p.timestamp s.open_stalls b w.0, w.1)
    | inr e ↦ elim (Bool-cases (has_window p.tcp_window_size)) [
      | inl f ↦ rw (e, f) (end_stall-Within (direction_key p) p.timestamp s b w)
      | inr f ↦ rw (e, f) w
    ]
  ]

  stalls_of-Within :
      (s : Stalls) (ps : List PacketRecord)
      → All (λ p. Between p.timestamp) ps
      → Within s
      → Within (stalls_of s ps)
  unfolding stalls_of
  stalls_of-Within s [] all w = w
  stalls_of-Within s (p ∷ ps) (b, all) w =
      stalls_of-Within (stall_step s p) ps all (stall_step-Within s p b w)

  close-Inside :
      (ts : List ℕ)
      → All Between ts
      → All Inside (map (λ since. record { started = since; ended = high }) ts)
  close-Inside [] all = tt
  close-Inside (t ∷ ts) (b, all) = ((b.0, omega arith), close-Inside ts all)

  -- The stalls of packets between the two times last no longer than the time between them.
  pub stalls_bound :
      (s : Stalls) (ps : List PacketRecord)
      → All (λ p. Between p.timestamp) ps
      → Within s
      → stall_duration (close_stalls high (stalls_of s ps)) ≤ high - low
  unfolding close_stalls
  stalls_bound s ps all w =
      let done = stalls_of-Within s ps all w in
      duration_bound _ (
        All-append Inside ((stalls_of s ps).stall_intervals) _ done.1
          (close-Inside (values (stalls_of s ps).open_stalls) done.0))
