-- ===== src/Scheduler/OrderedGroup/Examples.antt =====
-- The delivery theorems on the arrivals of the source's own test.
use gtp_rs.Base.{ℕ, ◌≡◌, List, [], ◌∷◌, length, map_keys}
use gtp_rs.Scheduler.OrderedGroup.{new}
use gtp_rs.Scheduler.OrderedGroup.Delivery.{successors, receive, receive-InOrder}
use gtp_rs.Scheduler.OrderedGroup.Buffer.{IsGroup, new-IsGroup, receive-IsGroup}

abbrev arrivals : List (ℕ × List ℕ)
arrivals = (0, 10 ∷ []) ∷ (2, 12 ∷ []) ∷ (3, 13 ∷ []) ∷ (1, 11 ∷ []) ∷ (1, 11 ∷ []) ∷ []

receive-InOrder_example :
    map_keys (receive (new 1) arrivals).1
    ≡ successors (new 1).next_expected (length (receive (new 1) arrivals).1)
receive-InOrder_example = receive-InOrder arrivals (new 1)

receive-IsGroup_example : IsGroup (receive (new 1) arrivals).0
receive-IsGroup_example = receive-IsGroup arrivals (new 1) (new-IsGroup 1)
