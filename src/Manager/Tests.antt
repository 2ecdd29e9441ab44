-- ===== src/Manager/Tests.antt =====
-- The totals of small managers.
use message_router.Base.{◌≡◌, refl, [], ◌∷◌}
use message_router.Manager.{add_up}
use message_router.Producer.{Producer, new_producer}
use message_router.Producer.Manager.{get_total_messages_produced}

-- Two counters near the top wrap in the sum.
abbrev busy : Producer
busy = record (new_producer 0) { messages_produced = 18446744073709551615 }

wrapped : get_total_messages_produced (busy ∷ busy ∷ []) ≡ 18446744073709551614
unfolding get_total_messages_produced add_up new_producer
wrapped = refl
