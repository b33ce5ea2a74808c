-- ===== src/Network/Tcp/Stalls.antt =====
-- Zero-window stalls of one connection, the loops of `_aggregate_tcp`, network/metrics.py. The merged
-- intervals are kept with the last one first.
pub mod Bound
use sahabino.Common.{
  ℕ, ◌-◌, Bool, true, false, Option, none, some, List, [], ◌∷◌, ◌++◌, leb, ltb, max, ◌==◌,
  if◌then◌else◌, map, sum_of,
}
use sahabino.Common.Maps.{get, set_default, delete, update, values}
use sahabino.Network.Packets.{PacketRecord, DirectionKey, direction_key, same_key}

pub record Interval : Type 0 where
  pub started : ℕ
  pub ended : ℕ

-- The open stalls by direction, and the stalls that ended.
pub record Stalls : Type 0 where
  pub open_stalls : List (DirectionKey × ℕ)
  pub stall_intervals : List Interval

-- `packet.tcp_window_size is not None and packet.tcp_window_size > 0`
abbrev pub has_window : Option ℕ → Bool
has_window none = false
has_window (some n) = ltb 0 n

-- A direction's stall ends: its interval is added.
unfoldable pub end_stall : DirectionKey → ℕ → Stalls → Stalls
unfolding get delete
end_stall key now s = elim (get same_key key s.open_stalls) [
  | none ↦ s
  | some started ↦ record {
    open_stalls = delete same_key key s.open_stalls;
    stall_intervals = s.stall_intervals ++ record { started = started; ended = now } ∷ [];
  }
]

-- One packet of the loop.
unfoldable pub stall_step : Stalls → PacketRecord → Stalls
unfolding end_stall update direction_key
stall_step s p =
    if p.tcp_zero_window
    then record s { open_stalls = set_default same_key (direction_key p) p.timestamp s.open_stalls }
    else if has_window p.tcp_window_size
    then end_stall (direction_key p) p.timestamp s
    else s

unfoldable pub stalls_of : Stalls → List PacketRecord → Stalls
unfolding stall_step
stalls_of s [] = s
stalls_of s (p ∷ ps) = stalls_of (stall_step s p) ps

-- The stalls that are open at the end of the flow end there.
unfoldable pub close_stalls : ℕ → Stalls → List Interval
unfolding values
close_stalls flow_end s =
    s.stall_intervals
    ++ map (λ since. record { started = since; ended = flow_end }) (values s.open_stalls)

-- `sorted(stall_intervals)`: intervals in the order of tuples.
abbrev pub before : Interval → Interval → Bool
before i j = elim (i.started == j.started) [
  | true ↦ leb i.ended j.ended
  | false ↦ ltb i.started j.started
]

unfoldable pub insert_interval : Interval → List Interval → List Interval
insert_interval i [] = i ∷ []
insert_interval i (j ∷ js) = if before i j then i ∷ j ∷ js else j ∷ insert_interval i js

unfoldable pub sort_intervals : List Interval → List Interval
unfolding insert_interval
sort_intervals [] = []
sort_intervals (i ∷ is) = insert_interval i (sort_intervals is)

-- One interval of the merging loop.
unfoldable pub merge_step : List Interval → Interval → List Interval
merge_step [] i = if leb i.ended i.started then [] else i ∷ []
merge_step (m ∷ ms) i =
    if leb i.ended i.started
    then m ∷ ms
    else if ltb m.ended i.started
    then i ∷ m ∷ ms
    else record m { ended = max m.ended i.ended } ∷ ms

unfoldable pub merge_intervals : List Interval → List Interval → List Interval
unfolding merge_step
merge_intervals merged [] = merged
merge_intervals merged (i ∷ is) = merge_intervals (merge_step merged i) is

-- The sum of the lengths of the merged intervals.
unfoldable pub stall_duration : List Interval → ℕ
unfolding merge_intervals sort_intervals sum_of
stall_duration is = sum_of (λ i. i.ended - i.started) (merge_intervals [] (sort_intervals is))
