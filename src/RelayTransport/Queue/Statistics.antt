-- ===== src/RelayTransport/Queue/Statistics.antt =====
-- internal/relaytransport/queue.go: what Stats counts.
use mossward.Common.{◌+◌, ◌≤◌, ◌≡◌, refl, ◌⊎◌, List, [], ◌∷◌, arith, All, Bool, length, ok}
use mossward.RelayTransport.Protocol.{MessageKind}
use mossward.RelayTransport.Queue.Rows.{Row, count_where, total_size}
use mossward.RelayTransport.Queue.Defs.{
  Queue, QueueStats, Json, Db, has_priority, is_leased, stats, priority_for_kind,
  priority_for_frame,
}
use mossward.RelayTransport.Queue.Invariant.{IsSound, IsStored}

priority_cases :
    (k : MessageKind)
    → (priority_for_kind k ≡ 100) ⊎ (priority_for_kind k ≡ 200) ⊎ (priority_for_kind k ≡ 300)
unfolding priority_for_kind
priority_cases k = ground arith

count_partition :
    (json : Json) (rs : List Row)
    → All (IsStored json) rs
    → count_where (has_priority 100) rs
        + count_where (has_priority 200) rs
        + count_where (has_priority 300) rs
      ≡ length rs
unfolding count_where priority_for_frame
count_partition json [] h = refl
count_partition json (r ∷ rs) h =
    ground (arith, count_partition json rs h.1, h.0.by_kind, priority_cases h.0.frame.kind)

count-le : (p : Row → Bool) (rs : List Row) → count_where p rs ≤ length rs
unfolding count_where
count-le p [] = omega arith
count-le p (r ∷ rs) = ground (arith, count-le p rs)

-- On a sound queue the three priority classes that Stats counts add up to its items, and no more
-- rows are leased than there are.
stats_partition :
    (json : Json) (db : Db) (q : Queue) (s : QueueStats)
    → IsSound json q
    → stats db q ≡ ok s
    → (s.items ≡ s.routine_items + s.elevated_items + s.critical_items)
      × (s.leased_items ≤ s.items)
      × (s.bytes ≡ total_size q.rows)
unfolding stats
stats_partition json db q s v h =
    ground (arith, count_partition json q.rows v.stored, count-le is_leased q.rows)
