-- ===== src/Tests/Queues.antt =====
-- Runs of netmsg's run queues.
use hurd.Base.{◌≡◌, refl, [], ◌∷◌}
use hurd.Base.OrdMap.{nat_key}
use hurd.Netmsg.RunQueues.{
  starting, asserted, handling, idle, RunQueues, queue, empty_queues, push_back, continue_push,
  continue_run, call, push, work, Steps, here, next,
}
use hurd.Netmsg.RunQueues.Races.{workers, IsLast, IsStranded, push_back-strands, push_back-doubles}

-- The thread of port 7 handles its one message.
abbrev one_left : RunQueues
one_left = record { queues = (7, 100 ∷ []) ∷ []; threads = handling 7 100 ∷ []; pusher = idle }

empty-Steps : Steps empty_queues one_left
unfolding push_back continue_push continue_run
empty-Steps = next (call empty_queues 7 100 refl) (
    next (push _) (
      next (push _) (
        next (work _ [] [] (starting 7) _ (asserted 7 ∷ []) refl refl)
          (next (work _ [] [] (asserted 7) _ (handling 7 100 ∷ []) refl refl) (here _)))))

one_left-IsLast : IsLast 7 100 [] [] one_left
one_left-IsLast = record { threads = refl; queue = refl; pusher = refl; only = refl }

push_back-strands_example :
    (t : RunQueues) × Steps one_left t
    × (queue 7 t ≡ 101 ∷ [])
    × (workers 7 t.threads ≡ 0)
    × (t.pusher ≡ idle)
    × ((u : RunQueues) → Steps t u → IsStranded 7 101 u)
push_back-strands_example = push_back-strands 7 100 101 [] [] one_left one_left-IsLast

push_back-doubles_example :
    (t : RunQueues) × Steps one_left t
    × (queue 7 t ≡ 101 ∷ [])
    × (t.threads ≡ handling 7 101 ∷ handling 7 101 ∷ [])
push_back-doubles_example = push_back-doubles 7 100 101 [] [] one_left one_left-IsLast
